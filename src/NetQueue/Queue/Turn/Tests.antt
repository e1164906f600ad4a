-- ===== src/NetQueue/Queue/Turn/Tests.antt =====
-- Two connections of which one sends two packets and hangs up, the other is writable again.
use v_net.Base.{
  ℕ, ℤ, pos, true, false, Option, none, some, List, [], ◌∷◌, ◌≡◌, refl, arith, nat_eq, int_eq,
}
use v_net.Base.Map.{find}
use v_net.Host.{little_host}
use v_net.NetQueue.Element.{NetworkElement, SocketData, TunData, CloseData, sck_header}
use v_net.NetQueue.Kernel.{Incoming, chunk, hang_up}
use v_net.NetQueue.Process.Frames.Stops.{hangs_up, dries}
use v_net.NetQueue.Write.{takes}
use v_net.NetQueue.Queue.{Queue}
use v_net.NetQueue.Queue.Sound.{IsSound}
use v_net.NetQueue.Queue.Turn.{QueueHandler, EpollEvent, wait_and_process, passes}
use v_net.NetQueue.Queue.Turn.Settle.{KeepsQueue}
use v_net.NetQueue.Queue.Turn.Receive.{KeepsElements}
use v_net.NetQueue.Queue.Turn.Batch.{
  Batch, events, AreArrivals, told_all, left, wait_and_process_delivers,
}

abbrev talking : NetworkElement
talking = record {
  state = sck_header;
  fd = pos 4;
  ptr = 10;
  net_buffer = [];
  write_buffer = [];
  write_buffer_offset = 0;
}

abbrev waiting : NetworkElement
waiting = record talking { fd = pos 5; ptr = 20; write_buffer = 8 ∷ 9 ∷ [] }

abbrev two : Queue
two = record {
  elements = (1, talking) ∷ (2, waiting) ∷ [];
  fd_to_network_element = (pos 4, 1) ∷ (pos 5, 2) ∷ [];
}

two-IsSound : IsSound two
unfolding IsSound find v_net.Base.Heap.field_at
two-IsSound = ((λ fd p e. ground (arith, e)), (λ fd p e. ground (arith, e)), (refl, (refl, tt)))

-- The program's state is a log: the types of the packets, and the connections that were closed.
abbrev on_packet : List ℕ → SocketData → List ℕ
on_packet w d = d.packet_type ∷ w

abbrev on_tun : List ℕ → TunData → List ℕ
on_tun w d = w

abbrev on_closed : List ℕ → CloseData → List ℕ
on_closed w d = d.ptr_data ∷ w

abbrev logger : QueueHandler (List ℕ)
logger = record {
  on_socket_ready = λ w q d. some (on_packet w d, q);
  on_tun_ready = λ w q d. some (on_tun w d, q);
  on_close = λ w q d. some (on_closed w d, q);
}

logger-KeepsElements : KeepsElements logger on_packet on_tun
unfolding KeepsElements
logger-KeepsElements = ((λ w q d. refl), (λ w q d. refl))

logger-KeepsQueue : KeepsQueue logger on_closed
unfolding KeepsQueue
logger-KeepsQueue w q d = refl

abbrev leaves : EpollEvent
leaves = record {
  data_ptr = 1;
  epollin = true;
  epollout = false;
  epollerr = false;
  epollhup = false;
  incoming =
      chunk (0 ∷ 0 ∷ 0 ∷ []) ∷ chunk (0 ∷ 0 ∷ 3 ∷ 0 ∷ 0 ∷ 0 ∷ 1 ∷ 0 ∷ 2 ∷ 7 ∷ []) ∷ hang_up ∷ [];
  outgoing = [];
  modifies = λ asks. true;
}

abbrev drains : EpollEvent
drains = record {
  data_ptr = 2;
  epollin = false;
  epollout = true;
  epollerr = false;
  epollhup = false;
  incoming = [];
  outgoing = takes 1 ∷ takes 1 ∷ [];
  modifies = λ asks. true;
}

abbrev pub batch : Batch
batch =
    (
      leaves,
      record {
        frames =
            record { packet_type = 3; payload = [] }
            ∷ record { packet_type = 2; payload = 7 ∷ [] }
            ∷ [];
        stop = hangs_up;
      },
    )
    ∷ (drains, record { frames = []; stop = dries })
    ∷ []

abbrev pub whole : List Incoming
whole = chunk (0 ∷ 0 ∷ 0 ∷ []) ∷ chunk (0 ∷ 0 ∷ 3 ∷ 0 ∷ 0 ∷ 0 ∷ 1 ∷ 0 ∷ 2 ∷ 7 ∷ []) ∷ []

batch-AreArrivals : AreArrivals 60 two batch
unfolding AreArrivals find v_net.NetQueue.Process.Frames.encode
    v_net.NetQueue.Process.Frames.encode_frame v_net.Protocol.Header.Wire.wire_header
    v_net.Host.store32 v_net.Host.store16 v_net.Base.Pointers.member
    v_net.NetQueue.Queue.Turn.Batch.pointers
batch-AreArrivals = (
  (
    talking,
    refl,
    refl,
    (
      whole,
      [],
      refl,
      tt,
      ((omega arith, omega arith), ((omega arith, omega arith), tt)),
      refl,
      omega arith,
    ),
  ),
  refl,
  ((waiting, refl, refl, (refl, refl)), refl, tt),
)

-- What the log says in the end.
log : told_all on_packet on_closed two batch [] ≡ 10 ∷ 2 ∷ 3 ∷ []
unfolding told_all find v_net.NetQueue.Queue.Turn.Settle.reason_for
    v_net.NetQueue.Write.flush_write_buffer v_net.NetQueue.Process.Frames.deliver
log = refl

wait_and_process_delivers_example :
    (q' : Queue) × (wait_and_process little_host logger 60 (some (events batch)) [] two
      ≡ passes (told_all on_packet on_closed two batch [], q'))
    × IsSound q'
    × ((r : ℕ) → find r q'.elements ≡ left batch r (find r two.elements))
wait_and_process_delivers_example =
    wait_and_process_delivers little_host logger on_packet on_tun on_closed logger-KeepsElements
      logger-KeepsQueue 60 two batch [] two-IsSound batch-AreArrivals
