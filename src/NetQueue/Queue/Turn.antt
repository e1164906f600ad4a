-- ===== src/NetQueue/Queue/Turn.antt =====
-- `wait_and_process` of src/netqueue/netqueue.cpp: what one return of `epoll_wait` leads to. The
-- handlers may call the queue, which is why they are given the table; an element that they
-- delete while it is in use is a fault.
pub mod Settle
pub mod Faults
pub mod Receive
pub mod Keep
pub mod Batch
pub mod Tests
use v_net.Host.{ByteOrder}
use v_net.NetQueue.Element.{
  NetworkElement, FiniteStateMachine, tun_receive, tun_ready, tun_error, tun_eof, sck_header,
  sck_payload, sck_ready, sck_error, sck_eof, SocketData, TunData, CloseData, CloseReason,
  close_error, close_epoll, close_hangup,
}
use v_net.NetQueue.Kernel.{Incoming}
use v_net.NetQueue.Process.{Handler, finished, unfinished, faulted, process}
use v_net.NetQueue.Write.{Outgoing, flush_write_buffer}
use v_net.NetQueue.Queue.{Queue, close_element}
use v_net.Base.{
  length, ◌==◌, ℕ, Bool, true, Option, none, some, List, [], ◌∷◌, ◌>>=◌, nat_eq, if◌then◌else◌, not,
}
use v_net.Base.Map.{find, insert}
use v_net.Base.Pointers.{member}

-- The handlers of a program whose own state is `W`.
pub record QueueHandler (W : Type 0) : Type 0 where
  pub on_socket_ready : W → Queue → SocketData → Option (W × Queue)
  pub on_tun_ready : W → Queue → TunData → Option (W × Queue)
  pub on_close : W → Queue → CloseData → Option (W × Queue)

-- One of the events that `epoll_wait` stored, what `read` and `write` do on its descriptor, and
-- whether `epoll_ctl` takes the modification that asks for EPOLLOUT too, or for EPOLLIN only.
pub record EpollEvent : Type 0 where
  pub data_ptr : ℕ
  pub epollin : Bool
  pub epollout : Bool
  pub epollerr : Bool
  pub epollhup : Bool
  pub incoming : List Incoming
  pub outgoing : List Outgoing
  pub modifies : Bool → Bool

-- How a part of the function ends: it goes on, `process` still runs when the fuel is used up, or
-- there is a fault.
pub data Pass (A : Type 0) : Type 0 where
  passes : A → Pass A
  runs_on : Pass A
  faults : Pass A

abbrev pub then_pass : {A B : Type 0} → Pass A → (A → Pass B) → Pass B
then_pass (passes a) next = next a
then_pass runs_on next = runs_on
then_pass faults next = faults

abbrev pub or_fault : {A B : Type 0} → Option A → (A → Pass B) → Pass B
or_fault none next = faults
or_fault (some a) next = next a

-- `should_close` and `reason`, by the state after `process`.
unfoldable pub verdict_of : FiniteStateMachine → Option CloseReason
verdict_of sck_error = some close_error
verdict_of tun_error = some close_error
verdict_of sck_eof = some close_hangup
verdict_of tun_eof = some close_hangup
verdict_of tun_receive = none
verdict_of tun_ready = none
verdict_of sck_header = none
verdict_of sck_payload = none
verdict_of sck_ready = none

-- The modification asks for EPOLLOUT while the write buffer is not empty.
abbrev pub asks_out : NetworkElement → Bool
asks_out el = not (length el.write_buffer == 0)

-- The verdict once EPOLLOUT, EPOLLERR and EPOLLHUP have been looked at, and then `epoll_ctl`.
unfoldable pub last_verdict : EpollEvent → Bool → Bool → Option CloseReason → Option CloseReason
last_verdict ev flushed asks v =
    let after_out = if flushed then v else some close_error in
    let after_err = if ev.epollerr then some close_error else after_out in
    let after_hup = if ev.epollhup then some close_hangup else after_err in
    elim after_hup [
      | some reason ↦ some reason
      | none ↦ if ev.modifies asks then none else some close_epoll
    ]

module _ {W : Type 0} (o : ByteOrder) (h : QueueHandler W) where
  -- A handler called with the element at `p` in use, which it finds in the table and may change.
  unfoldable pub at_element :
      ℕ
      → (W → Queue → Option (W × Queue))
      → W × Queue
      → NetworkElement
      → Option ((W × Queue) × NetworkElement)
  at_element p call (w, q) el = do
    (w', q') ← call w (record q { elements = insert p el q.elements })
    el' ← find p q'.elements
    some ((w', q'), el')

  unfoldable pub handler_at : ℕ → Handler (W × Queue)
  unfolding at_element
  handler_at p = record {
    on_socket_ready = λ wq el d. at_element p (λ w q. h.on_socket_ready w q d) wq el;
    on_tun_ready = λ wq el d. at_element p (λ w q. h.on_tun_ready w q d) wq el;
  }

  -- `process(current_element)`
  unfoldable pub process_at : ℕ → ℕ → List Incoming → NetworkElement → W → Queue → Pass (W × Queue)
  unfolding handler_at
  process_at fuel p incoming el w q =
      elim (process o (handler_at p) fuel
        (record { element = el; script = incoming; world = (w, q) })) [
          | finished l ↦
              passes
                (l.world.0, record (l.world.1) { elements = insert p l.element l.world.1.elements })
          | unfinished l ↦ runs_on
          | faulted ↦ faults
        ]

  -- The end of a round: `onClose`, `elements_closed.insert` and `close`, if there is a reason.
  pub close_for :
      Option CloseReason → ℕ → NetworkElement → List ℕ → W → Queue → Option (List ℕ × W × Queue)
  close_for none p el closed w q = some (closed, w, q)
  close_for (some reason) p el closed w q = do
    (w', q') ← h.on_close w q (record { ptr_data = el.ptr; fd = el.fd; reason = reason })
    (q'', fds) ← close_element (some p) q'
    some (p ∷ closed, w', q'')

  -- From EPOLLOUT on.
  pub settle : EpollEvent → Option CloseReason → List ℕ → W → Queue → Option (List ℕ × W × Queue)
  unfolding close_for
  settle ev v closed w q = do
    el ← find ev.data_ptr q.elements
    let flush = flush_write_buffer el ev.outgoing
    let el' = if ev.epollout then flush.element else el
    let flushed = if ev.epollout then flush.ok else true
    close_for (last_verdict ev flushed (asks_out el') v) ev.data_ptr el' closed w
        (record q { elements = insert ev.data_ptr el' q.elements })

  -- EPOLLIN.
  pub receive : ℕ → EpollEvent → W → Queue → Pass (Option CloseReason × W × Queue)
  unfolding process_at
  receive fuel ev w q =
      if not ev.epollin
      then passes (none, w, q)
      else or_fault (find ev.data_ptr q.elements) λ el.
        then_pass (process_at fuel ev.data_ptr ev.incoming el w q) λ wq.
          or_fault (find ev.data_ptr wq.1.elements) λ el'. passes (verdict_of el'.state, wq.0, wq.1)

  -- One turn of the loop over the events, with `elements_closed`.
  pub handle_event : ℕ → EpollEvent → List ℕ → W → Queue → Pass (List ℕ × W × Queue)
  unfolding receive settle
  handle_event fuel ev closed w q =
      if member ev.data_ptr closed
      then passes (closed, w, q)
      else then_pass (receive fuel ev w q) λ r. or_fault (settle ev r.0 closed r.1 r.2) passes

  pub handle_events : ℕ → List EpollEvent → List ℕ → W → Queue → Pass (List ℕ × W × Queue)
  unfolding handle_event
  handle_events fuel [] closed w q = passes (closed, w, q)
  handle_events fuel (ev ∷ evs) closed w q =
      then_pass (handle_event fuel ev closed w q) λ r. handle_events fuel evs r.0 r.1 r.2

  -- `epoll_wait` failed, or stored these events.
  unfoldable pub wait_and_process : ℕ → Option (List EpollEvent) → W → Queue → Pass (W × Queue)
  unfolding handle_events
  wait_and_process fuel none w q = passes (w, q)
  wait_and_process fuel (some evs) w q =
      then_pass (handle_events fuel evs [] w q) λ r. passes (r.1, r.2)
