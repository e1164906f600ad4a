-- ===== src/NetQueue/Write/Order.antt =====
-- What the sending side of src/netqueue/netqueue.cpp puts on the wire, and in which order.
use v_net.NetQueue.Element.{NetworkElement, write_buffer_max}
use v_net.NetQueue.Write.{
  advance, unsent, takes, blocks, interrupted, breaks, takes, Outgoing, send, send_rest,
  flush_write_buffer, buffer_rest,
}
use v_net.Base.{
  Bool-cases, length-drop, length-append, drop-add, drop-append_left, inr, ◌+◌, inl, ◌-◌,
  List-cases, min, drop_all, false, drop-nil, zero, take-append-drop, ◌∙◌, take, append_assoc, ap,
  suc, ℕ, List, [], ◌∷◌, ◌++◌, ◌≡◌, arith, length, drop, ◌≤◌, true,
}

-- The bytes that the queue still owes to the descriptor.
abbrev pub pending : NetworkElement → List ℕ
pending el = drop el.write_buffer_offset el.write_buffer

-- The offset is inside the buffer, and the bytes owed are at most WRITE_BUFFER_MAX.
unfoldable pub IsBounded : NetworkElement → Type 0
IsBounded el =
    (el.write_buffer_offset ≤ length el.write_buffer) × (length (pending el) ≤ write_buffer_max)

pending-nil : (el : NetworkElement) → el.write_buffer ≡ [] → pending el ≡ []
pending-nil el e = ap (drop el.write_buffer_offset) e ∙ drop-nil el.write_buffer_offset

-- A successful call with an empty buffer: what it wrote and what it keeps are the bytes it was given.
send_rest-order :
    (bytes : List ℕ) (el : NetworkElement) (s : List Outgoing)
    → el.write_buffer ≡ []
    → (send_rest bytes el s).ok ≡ true
    → (send_rest bytes el s).wire ++ pending (send_rest bytes el s).element ≡ bytes
unfolding send_rest buffer_rest
send_rest-order [] el s e h = pending-nil el e
send_rest-order (b ∷ bs) el [] e h = ground arith
send_rest-order (b ∷ bs) el (blocks ∷ s) e h = ground arith
send_rest-order (b ∷ bs) el (interrupted ∷ s) e h = send_rest-order (b ∷ bs) el s e h
send_rest-order (b ∷ bs) el (breaks ∷ s) e h = absurd (ground arith)
send_rest-order (b ∷ bs) el (takes zero ∷ s) e h = absurd (ground arith)
send_rest-order (b ∷ bs) el (takes (suc k) ∷ s) e h =
    ap (λ xs. b ∷ xs)
      (append_assoc (take k bs) _ _
        ∙ ap (λ xs. take k bs ++ xs) (send_rest-order (drop k bs) el s e h)
        ∙ take-append-drop k bs)

send_rest-IsBounded :
    (bytes : List ℕ) (el : NetworkElement) (s : List Outgoing)
    → el.write_buffer ≡ []
    → IsBounded el
    → IsBounded (send_rest bytes el s).element
unfolding send_rest buffer_rest IsBounded
send_rest-IsBounded [] el s e i = i
send_rest-IsBounded (b ∷ bs) el [] e i = ground arith
send_rest-IsBounded (b ∷ bs) el (blocks ∷ s) e i = ground arith
send_rest-IsBounded (b ∷ bs) el (interrupted ∷ s) e i = send_rest-IsBounded (b ∷ bs) el s e i
send_rest-IsBounded (b ∷ bs) el (breaks ∷ s) e i = i
send_rest-IsBounded (b ∷ bs) el (takes zero ∷ s) e i = i
send_rest-IsBounded (b ∷ bs) el (takes (suc k) ∷ s) e i = send_rest-IsBounded (drop k bs) el s e i

-- When `send` succeeds, what it has put on the wire and what the queue then owes are, in this
-- order, what the queue owed before and the bytes given: none is lost, repeated or overtaken.
pub send-order :
    (bytes : List ℕ) (el : NetworkElement) (s : List Outgoing)
    → IsBounded el
    → (send bytes el s).ok ≡ true
    → (send bytes el s).wire ++ pending (send bytes el s).element ≡ pending el ++ bytes
unfolding send IsBounded
send-order bytes el s i h = elim (List-cases el.write_buffer) [
  | inl e ↦ ground (arith, send_rest-order bytes el s e, pending-nil el e)
  | inr (b, bs, e) ↦
      ground (arith, drop-append_left el.write_buffer_offset el.write_buffer bytes i.0)
]

pub send-IsBounded :
    (bytes : List ℕ) (el : NetworkElement) (s : List Outgoing)
    → IsBounded el
    → IsBounded (send bytes el s).element
unfolding send IsBounded
send-IsBounded bytes el s i = elim (List-cases el.write_buffer) [
  | inl e ↦
      let bounded : IsBounded (send_rest bytes el s).element = send_rest-IsBounded bytes el s e i in
      ground (arith, bounded)
  | inr (b, bs, e) ↦ ground (
    arith,
    drop-append_left el.write_buffer_offset el.write_buffer bytes i.0,
    length-append (pending el) bytes,
    length-append el.write_buffer bytes,
    length-drop el.write_buffer_offset el.write_buffer,
  )
]

flush_write_buffer-nil : (el : NetworkElement) → IsBounded el → unsent el ≡ false → pending el ≡ []
unfolding IsBounded
flush_write_buffer-nil el i e = drop_all el.write_buffer_offset el.write_buffer (ground arith)

-- One `write`, and then the rest.
written :
    (r : ℕ) (el : NetworkElement) (s : List Outgoing)
    → pending (advance r el) ≡ drop r (pending el)
    → (flush_write_buffer (advance r el) s).wire
        ++ pending (flush_write_buffer (advance r el) s).element
      ≡ pending (advance r el)
    → (take r (pending el) ++ (flush_write_buffer (advance r el) s).wire)
        ++ pending (flush_write_buffer (advance r el) s).element
      ≡ pending el
written r el s left rest =
    append_assoc (take r (pending el)) _ _
    ∙ ap (λ xs. take r (pending el) ++ xs) (rest ∙ left)
    ∙ take-append-drop r (pending el)

-- Whatever `flush_write_buffer` returns, what it has put on the wire and what the queue then owes
-- are, in this order, what the queue owed before, and the element stays bounded.
pub flush_write_buffer-order :
    (el : NetworkElement) (s : List Outgoing)
    → IsBounded el
    → ((flush_write_buffer el s).wire ++ pending (flush_write_buffer el s).element ≡ pending el)
      × IsBounded (flush_write_buffer el s).element
unfolding flush_write_buffer IsBounded
flush_write_buffer-order el [] i = ground (arith, flush_write_buffer-nil el i)
flush_write_buffer-order el (blocks ∷ s) i = ground (arith, flush_write_buffer-nil el i)
flush_write_buffer-order el (interrupted ∷ s) i =
    ground (arith, flush_write_buffer-nil el i, flush_write_buffer-order el s i)
flush_write_buffer-order el (breaks ∷ s) i = ground (arith, flush_write_buffer-nil el i)
flush_write_buffer-order el (takes k ∷ s) i =
    let r = min k (length el.write_buffer - el.write_buffer_offset) in
    let left : drop (el.write_buffer_offset + r) el.write_buffer ≡ drop r (pending el) =
      drop-add el.write_buffer_offset r el.write_buffer in
    let bounded : IsBounded (advance r el) = ground (
      arith,
      left,
      length-drop el.write_buffer_offset el.write_buffer,
      length-drop (el.write_buffer_offset + r) el.write_buffer,
    ) in
    let rest = flush_write_buffer-order (advance r el) s bounded in
    let joined = written r el s left rest.0 in
    elim (Bool-cases (unsent el)) [
      | inl e ↦ ground (arith, joined, rest.1)
      | inr e ↦ ground (arith, flush_write_buffer-nil el i)
    ]
