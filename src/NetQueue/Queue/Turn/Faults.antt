-- ===== src/NetQueue/Queue/Turn/Faults.antt =====
-- A handler that closes the connection it is called for, in src/netqueue/netqueue.cpp.
use v_net.Host.{ByteOrder}
use v_net.Protocol.Header.{PacketHeader, header_at}
use v_net.NetQueue.Element.{NetworkElement, SocketData, sck_ready}
use v_net.NetQueue.Kernel.{Incoming}
use v_net.NetQueue.Process.Relate.{data_for}
use v_net.NetQueue.Process.{Handler, faulted, Loop, Round, process, round, in_ready}
use v_net.NetQueue.Process
use v_net.NetQueue.Queue.{Queue, close, close_element}
use v_net.NetQueue.Queue.Sound.{IsSound}
use v_net.NetQueue.Queue.Close.{without, close_element-known}
use v_net.NetQueue.Queue.Turn.{QueueHandler, handler_at, at_element, process_at}
use v_net.NetQueue.Queue.Turn
use v_net.NetQueue.Queue.Turn.Settle.{kept-IsSound, in_table}
use v_net.Base.{[], ◌∷◌, ℕ, suc, none, some, List, ◌≡◌, refl, ap, ◌∙◌, nat_eq, int_eq, arith, ◌>>=◌}
use v_net.Base.Map.{find, insert, find-insert_self, find-erase_self}

-- For this packet the handler closes the descriptor that it came from.
unfoldable pub ClosesOwn : {W : Type 0} → QueueHandler W → W → Queue → SocketData → Type 0
ClosesOwn {W} h w q d =
    (w' : W) × (h.on_socket_ready w q d ≡ (close d.fd q >>= λ r. some (w', r.0)))

-- A handler without a result ends the loop.
process-faulted :
    {V : Type 0} (o : ByteOrder) (g : Handler V) (fuel : ℕ) (l : Loop V) (header : PacketHeader)
    → l.element.state ≡ sck_ready
    → header_at o l.element.net_buffer ≡ some header
    → g.on_socket_ready l.world l.element (data_for o l.element header) ≡ none
    → process o g (suc fuel) l ≡ faulted
unfolding process
process-faulted o g fuel l header ready whole none_left =
    let here : in_ready o g l ≡ Process.faults =
      unfold in_ready in ground (arith, whole, none_left) in
    let turn : round o g l ≡ Process.faults = unfold round in ground (arith, ready, here) in
    rw (turn, process) refl

module _ {W : Type 0} (o : ByteOrder) (h : QueueHandler W) where
  close_known :
      (p : ℕ) (el : NetworkElement) (q : Queue)
      → IsSound q
      → find p q.elements ≡ some el
      → close el.fd q ≡ some (without p el.fd q, el.fd ∷ [])
  unfolding close
  close_known p el q sound found =
      let at = in_table p el q sound found in
      ap (λ r. close_element r q) at ∙ close_element-known p el q found at

  at_element-none :
      (p : ℕ) (el : NetworkElement) (w : W) (q : Queue) (d : SocketData)
      → IsSound q
      → find p q.elements ≡ some el
      → d.fd ≡ el.fd
      → ClosesOwn h w (record q { elements = insert p el q.elements }) d
      → at_element o h p (λ w q. h.on_socket_ready w q d) (w, q) el ≡ none
  unfolding at_element ClosesOwn
  at_element-none p el w q d sound found same (w', own) =
      let q1 : Queue = record q { elements = insert p el q.elements } in
      let there = find-insert_self p el q.elements in
      let closed : close d.fd q1 ≡ some (without p el.fd q1, el.fd ∷ []) =
        ap (λ fd. close fd q1) same
        ∙ close_known p el q1 (kept-IsSound p el el q sound found refl) there in
      let called : h.on_socket_ready w q1 d ≡ some (w', without p el.fd q1) =
        own ∙ ap (λ r. r >>= λ r. some (w', r.0)) closed in
      let gone = find-erase_self p q1.elements in rw (called, gone) refl

  -- When `process` finds a complete packet for which the handler closes its own connection, it goes
  -- on with an element that is deleted, which is a fault.
  pub process_at-ClosesOwn :
      (fuel p : ℕ) (s : List Incoming) (el : NetworkElement) (w : W) (q : Queue)
      (header : PacketHeader)
      → IsSound q
      → find p q.elements ≡ some el
      → el.state ≡ sck_ready
      → header_at o el.net_buffer ≡ some header
      → ClosesOwn h w (record q { elements = insert p el q.elements }) (data_for o el header)
      → process_at o h (suc fuel) p s el w q ≡ Turn.faults
  unfolding process_at handler_at
  process_at-ClosesOwn fuel p s el w q header sound found ready whole own =
      let l : Loop (W × Queue) = record { element = el; script = s; world = (w, q) } in
      let stuck = at_element-none p el w q (data_for o el header) sound found refl own in
      let ended = process-faulted o (handler_at o h p) fuel l header ready whole stuck in
      rw (ended, process_at) refl
