-- ===== src/NetQueue/Queue/Turn/Settle.antt =====
-- What `wait_and_process` of src/netqueue/netqueue.cpp does with an element after its reads.
use v_net.Base.{
  ap, ◌&&◌, ◌==◌, ltb, not, min, length, ◌-◌, ◌+◌, ℕ, Bool, true, Option, none, some, List, [], ◌∷◌,
  ◌≡◌, ◌≢◌, refl, ◌∙◌, arith, nat_eq, int_eq, if◌then◌else◌,
}
use v_net.Base.Map.{find, insert, find-insert, find-erase, find-erase_self, find-insert_self}
use v_net.Base.Heap.{field_at}
use v_net.Host.{ByteOrder}
use v_net.NetQueue.Element.{
  close_epoll, close_error, close_hangup, NetworkElement, CloseData, CloseReason,
}
use v_net.NetQueue.Write.{Outgoing, takes, blocks, interrupted, breaks, flush_write_buffer}
use v_net.NetQueue.Queue.{close_element, Queue}
use v_net.NetQueue.Queue.Sound.{fd_at, IsSound}
use v_net.NetQueue.Queue.Close.{without, without-IsSound, close_element-known}
use v_net.NetQueue.Queue.Turn.{asks_out, QueueHandler, EpollEvent, settle, close_for, last_verdict}

-- Flushing leaves the element its descriptor.
flush-fd : (el : NetworkElement) (s : List Outgoing) → (flush_write_buffer el s).element.fd ≡ el.fd
unfolding flush_write_buffer
flush-fd el [] = ground arith
flush-fd el (blocks ∷ s) = ground arith
flush-fd el (interrupted ∷ s) = ground (arith, flush-fd el s)
flush-fd el (breaks ∷ s) = ground arith
flush-fd el (takes k ∷ s) =
    let r = min k (length el.write_buffer - el.write_buffer_offset) in
    ground (arith, flush-fd (record el { write_buffer_offset = el.write_buffer_offset + r }) s)

-- An element that keeps its descriptor.
kept-fd_at :
    (p r : ℕ) (el el' : NetworkElement) (elements : List (ℕ × NetworkElement))
    → find p elements ≡ some el
    → el'.fd ≡ el.fd
    → fd_at r (insert p el' elements) ≡ fd_at r elements
unfolding field_at
kept-fd_at p r el el' elements found same =
    ground (arith, found, same, find-insert p r el' elements)

pub kept-IsSound :
    (p : ℕ) (el el' : NetworkElement) (q : Queue)
    → IsSound q
    → find p q.elements ≡ some el
    → el'.fd ≡ el.fd
    → IsSound (record q { elements = insert p el' q.elements })
unfolding IsSound
kept-IsSound p el el' q sound found same = (
  (λ fd r e. ground (arith, sound.0 fd r, kept-fd_at p r el el' q.elements found same)),
  (λ fd r e. ground (arith, sound.1 fd r, kept-fd_at p r el el' q.elements found same)),
  sound.2,
)

live_fd_at :
    (p : ℕ) (el : NetworkElement) (q : Queue)
    → find p q.elements ≡ some el
    → fd_at p q.elements ≡ some el.fd
unfolding field_at
live_fd_at p el q found = ground (arith, found)

pub in_table :
    (p : ℕ) (el : NetworkElement) (q : Queue)
    → IsSound q
    → find p q.elements ≡ some el
    → find el.fd q.fd_to_network_element ≡ some p
unfolding IsSound
in_table p el q sound found = sound.1 el.fd p (live_fd_at p el q found)

-- The handler for closed connections leaves the table alone.
unfoldable pub KeepsQueue : {W : Type 0} → QueueHandler W → (W → CloseData → W) → Type 0
KeepsQueue {W} h seen = (w : W) (q : Queue) (d : CloseData) → h.on_close w q d ≡ some (seen w d, q)

-- The element once EPOLLOUT was looked at, and whether its buffer could be flushed.
abbrev pub flushed_element : EpollEvent → NetworkElement → NetworkElement
flushed_element ev el = if ev.epollout then (flush_write_buffer el ev.outgoing).element else el

abbrev pub is_flushed : EpollEvent → NetworkElement → Bool
is_flushed ev el = if ev.epollout then (flush_write_buffer el ev.outgoing).ok else true

asks-some : (xs : List ℕ) → not (length xs == 0) ≡ ltb 0 (length xs)
asks-some [] = refl
asks-some (x ∷ xs) = ground arith

-- When a connection is to be closed, and why, the strongest reason first: the peer hung up, the
-- descriptor has an error, what waits cannot be written; then what its reads said; and when there is
-- none of these, the descriptor cannot be armed again, for reading, and for writing too if bytes
-- still wait.
unfoldable pub reason_for : EpollEvent → Option CloseReason → NetworkElement → Option CloseReason
reason_for ev said el =
    let waiting = (flushed_element ev el).write_buffer in
    if ev.epollhup
    then some close_hangup
    else if ev.epollerr
    then some close_error
    else if ev.epollout && not (flush_write_buffer el ev.outgoing).ok
    then some close_error
    else elim said [
      | some reason ↦ some reason
      | none ↦ if ev.modifies (ltb 0 (length waiting)) then none else some close_epoll
    ]

verdict_by :
    (ev : EpollEvent) (ok asks : Bool) (said : Option CloseReason)
    → last_verdict ev (if ev.epollout then ok else true) asks said ≡ (
        if ev.epollhup
        then some close_hangup
        else if ev.epollerr
        then some close_error
        else if ev.epollout && not ok
        then some close_error
        else elim said [
          | some reason ↦ some reason
          | none ↦ if ev.modifies asks then none else some close_epoll
        ])
unfolding last_verdict
verdict_by ev ok asks none = ground arith
verdict_by ev ok asks (some reason) = ground arith

last_verdict-reason_for :
    (ev : EpollEvent) (said : Option CloseReason) (el : NetworkElement)
    → last_verdict ev (is_flushed ev el) (asks_out (flushed_element ev el)) said
      ≡ reason_for ev said el
unfolding reason_for
last_verdict-reason_for ev said el =
    ap (λ asks. last_verdict ev (is_flushed ev el) asks said)
      (asks-some (flushed_element ev el).write_buffer)
    ∙ verdict_by ev (flush_write_buffer el ev.outgoing).ok
        (ltb 0 (length (flushed_element ev el).write_buffer)) said

-- What is left for a reason to close, or for none: from the table `q`, on which `close` was called
-- if there was a reason, the table `q'`.
unfoldable pub IsSettled :
    {W : Type 0}
    → (W → CloseData → W)
    → Option CloseReason
    → ℕ
    → NetworkElement
    → List ℕ
    → W
    → Queue
    → List ℕ
    → W
    → Queue
    → Type 0
IsSettled seen none p el closed w q closed' w' q' =
    (closed' ≡ closed) × (w' ≡ w) × (q' ≡ q) × (find p q'.elements ≡ some el)
IsSettled seen (some reason) p el closed w q closed' w' q' =
    (closed' ≡ p ∷ closed)
    × (w' ≡ seen w (record { ptr_data = el.ptr; fd = el.fd; reason = reason }))
    × (close_element (some p) q ≡ some (q', el.fd ∷ []))
    × (find p q'.elements ≡ none)
    × (find el.fd q'.fd_to_network_element ≡ none)

module _ {W : Type 0} (o : ByteOrder) (h : QueueHandler W) (seen : W → CloseData → W)
    (keeps : KeepsQueue h seen) where
  -- With the element `el` at `p`, and its descriptor in the table.
  close_for-IsSettled :
      (v : Option CloseReason) (p : ℕ) (el : NetworkElement) (closed : List ℕ) (w : W) (q : Queue)
      → IsSound q
      → find p q.elements ≡ some el
      → (closed' : List ℕ) × (w' : W) × (q' : Queue) × (close_for o h v p el closed w q
          ≡ some (closed', w', q'))
        × IsSound q'
        × IsSettled seen v p el closed w q closed' w' q'
        × ((r : ℕ) → p ≢ r → find r q'.elements ≡ find r q.elements)
  unfolding close_for IsSettled KeepsQueue
  close_for-IsSettled none p el closed w q sound found =
      (closed, w, q, refl, sound, (refl, refl, refl, found), (λ r other. refl))
  close_for-IsSettled (some reason) p el closed w q sound found =
      let at = in_table p el q sound found in
      let d : CloseData = record { ptr_data = el.ptr; fd = el.fd; reason = reason } in
      (
        p ∷ closed,
        seen w d,
        without p el.fd q,
        rw (keeps w q d, close_element-known p el q found at) refl,
        without-IsSound p el.fd q sound at,
        (
          refl,
          refl,
          close_element-known p el q found at,
          find-erase_self p q.elements,
          find-erase_self el.fd q.fd_to_network_element,
        ),
        (λ r other. ground (arith, find-erase p r q.elements)),
      )

  flushed_element-fd : (ev : EpollEvent) (el : NetworkElement) → (flushed_element ev el).fd ≡ el.fd
  flushed_element-fd ev el = ground (arith, flush-fd el ev.outgoing)

  -- From EPOLLOUT on, after reads that said `said`, for a live element of a sound table and with a
  -- handler for closed connections that leaves the table alone: there is no fault. The element is
  -- flushed if the event says that the descriptor can be written. If the peer hung up, the descriptor
  -- has an error, flushing fails, the reads said so, or the descriptor cannot be armed again, then the
  -- handler is told of the connection with the first of these reasons (`reason_for`), and the element
  -- is deleted and out of the table, as a `close` leaves it that closes its descriptor and no other.
  -- Otherwise the handler is not called and the element stays as flushing left it. Every other element
  -- stays as it was, and the table stays sound.
  pub settle-IsSettled :
      (ev : EpollEvent) (said : Option CloseReason) (closed : List ℕ) (w : W) (q : Queue)
      (el : NetworkElement)
      → IsSound q
      → find ev.data_ptr q.elements ≡ some el
      → (closed' : List ℕ) × (w' : W) × (q' : Queue) × (settle o h ev said closed w q
          ≡ some (closed', w', q'))
        × IsSound q'
        × IsSettled seen
            (reason_for ev said el)
            ev.data_ptr
            (flushed_element ev el)
            closed
            w
            (record q { elements = insert ev.data_ptr (flushed_element ev el) q.elements })
            closed'
            w'
            q'
        × ((r : ℕ) → ev.data_ptr ≢ r → find r q'.elements ≡ find r q.elements)
  unfolding settle
  settle-IsSettled ev said closed w q el sound found =
      let p = ev.data_ptr in
      let el' = flushed_element ev el in
      let q1 : Queue = record q { elements = insert p el' q.elements } in
      let same = flushed_element-fd ev el in
      let (closed', w', q', done, sound', settled, others) =
        close_for-IsSettled (reason_for ev said el) p el' closed w q1
          (kept-IsSound p el el' q sound found same) (find-insert_self p el' q.elements) in
      (
        closed',
        w',
        q',
        rw (found, last_verdict-reason_for ev said el) done,
        sound',
        settled,
        (λ r other. others r other ∙ ground (arith, find-insert p r el' q.elements)),
      )
