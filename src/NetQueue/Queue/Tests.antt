-- ===== src/NetQueue/Queue/Tests.antt =====
-- A queue with two connections.
use v_net.Host.{little_host}
use v_net.NetQueue.Element.{NetworkElement, CloseData, sck_header, sck_ready, new_element}
use v_net.NetQueue.Write.{takes}
use v_net.NetQueue.Queue.{Queue, PutChances, put, close, destroy, get_network_element_from_fd}
use v_net.NetQueue.Queue.Sound.{fd_at, IsSound, IsAdmissible}
use v_net.NetQueue.Queue.Close.{keys}
use v_net.NetQueue.Queue.History.{
  QueueOp, puts, closes, apply_all, registered, AreAdmissible, apply_all-registered,
}
use v_net.NetQueue.Queue.Turn.{QueueHandler, EpollEvent, settle}
use v_net.NetQueue.Queue.Turn.Settle.{
  reason_for, KeepsQueue, IsSettled, flushed_element, settle-IsSettled,
}
use v_net.NetQueue.Write.Order.{IsBounded}
use v_net.NetQueue.Queue.Send.{Transmission, refuses, send_message}
use v_net.NetQueue.Queue.Transmit.{AreBounded, IsTransmitted, send_message-IsTransmitted}
use v_net.Base.{
  ◌⊎◌, suc, ℕ, ℤ, pos, true, false, Option, none, some, List, [], ◌∷◌, ◌≡◌, ◌≢◌, refl, arith,
  nat_eq, int_eq, ◌>>=◌,
}
use v_net.Base.Map.{insert, find, IsMap}

abbrev all_goes_well : PutChances
all_goes_well = record { allocates = true; adds = true; stores = true }

abbrev calls : List QueueOp
calls =
    closes (pos 4)
    ∷ puts all_goes_well 2 (pos 5) 20 sck_header
    ∷ puts all_goes_well 1 (pos 4) 10 sck_header
    ∷ []

calls-AreAdmissible : AreAdmissible calls
unfolding AreAdmissible IsAdmissible apply_all find v_net.NetQueue.Queue.History.apply put
    v_net.Base.Map.insert new_element v_net.Base.Heap.field_at
calls-AreAdmissible = (
  (λ q e. (ground (arith, e), (λ adds. ground (arith, e)))),
  ((λ q e. (ground (arith, e), (λ adds. ground (arith, e)))), tt),
)

apply_all-registered_example :
    (q : Queue) × (apply_all calls ≡ some q)
    × ((fd : ℤ) → get_network_element_from_fd fd q ≡ registered calls fd)
    × IsMap q.fd_to_network_element
    × ((left : List (ℕ × NetworkElement)) × (destroy q
          ≡ some (
            record { elements = left; fd_to_network_element = [] },
            keys q.fd_to_network_element,
          ))
        × ((p : ℕ) → fd_at p left ≡ none))
apply_all-registered_example = apply_all-registered calls calls-AreAdmissible

abbrev ready : NetworkElement
ready = record {
  state = sck_ready;
  fd = pos 4;
  ptr = 10;
  net_buffer = 0 ∷ 0 ∷ 0 ∷ 0 ∷ 0 ∷ 0 ∷ [];
  write_buffer = 8 ∷ 9 ∷ [];
  write_buffer_offset = 0;
}

abbrev two : Queue
two = record {
  elements = (1, ready) ∷ (2, record ready { fd = pos 5; ptr = 20 }) ∷ [];
  fd_to_network_element = (pos 4, 1) ∷ (pos 5, 2) ∷ [];
}

two-IsSound : IsSound two
unfolding IsSound find v_net.Base.Heap.field_at
two-IsSound = ((λ fd p e. ground (arith, e)), (λ fd p e. ground (arith, e)), (refl, (refl, tt)))

-- The program's state counts the connections that were closed; a packet closes its connection.
abbrev counter : QueueHandler ℕ
counter = record {
  on_socket_ready = λ w q d. close d.fd q >>= λ r. some (w, r.0);
  on_tun_ready = λ w q d. some (w, q);
  on_close = λ w q d. some (suc w, q);
}

abbrev seen : ℕ → CloseData → ℕ
seen w d = suc w

counter-KeepsQueue : KeepsQueue counter seen
unfolding KeepsQueue
counter-KeepsQueue w q d = refl

abbrev event : EpollEvent
event = record {
  data_ptr = 1;
  epollin = false;
  epollout = true;
  epollerr = false;
  epollhup = true;
  incoming = [];
  outgoing = takes 1 ∷ takes 1 ∷ [];
  modifies = λ asks. true;
}

ready_found : find 1 two.elements ≡ some ready
unfolding find
ready_found = refl

settle-IsSettled_example :
    (closed' : List ℕ) × (w' : ℕ) × (q' : Queue) × (settle little_host counter event none [] 0 two
      ≡ some (closed', w', q'))
    × IsSound q'
    × IsSettled seen
        (reason_for event none ready)
        1
        (flushed_element event ready)
        []
        0
        (record two { elements = insert 1 (flushed_element event ready) two.elements })
        closed'
        w'
        q'
    × ((r : ℕ) → 1 ≢ r → find r q'.elements ≡ find r two.elements)
settle-IsSettled_example =
    settle-IsSettled little_host counter seen counter-KeepsQueue event none [] 0 two ready
      two-IsSound ready_found

ready-IsBounded : (fd : ℤ) (ptr : ℕ) → IsBounded (record ready { fd = fd; ptr = ptr })
unfolding IsBounded
ready-IsBounded fd ptr = (omega arith, omega arith)

two-AreBounded : AreBounded two
unfolding AreBounded find
two-AreBounded p el e = ground (arith, e, ready-IsBounded (pos 4) 10, ready-IsBounded (pos 5) 20)

send_message-IsTransmitted_example :
    (r : Transmission) × (send_message little_host (pos 5) 2 (some (7 ∷ [])) (takes 9 ∷ []) two
      ≡ some r)
    × IsSound r.queue
    × AreBounded r.queue
    × (((get_network_element_from_fd (pos 5) two ≡ none) × (r ≡ refuses two (takes 9 ∷ [])))
        ⊎ ((p : ℕ) × (el : NetworkElement) × (get_network_element_from_fd (pos 5) two ≡ some p)
            × (find p two.elements ≡ some el)
            × IsTransmitted 2 (7 ∷ []) two p el r))
send_message-IsTransmitted_example =
    send_message-IsTransmitted little_host (pos 5) 2 (7 ∷ []) (takes 9 ∷ []) two two-IsSound
      two-AreBounded (omega arith) (omega arith)
