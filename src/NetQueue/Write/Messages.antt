-- ===== src/NetQueue/Write/Messages.antt =====
-- Whole messages on the sending side of src/netqueue/netqueue.cpp, and a sequence of calls.
use v_net.Host.{ByteOrder}
use v_net.Protocol.Header.{PacketType, header_bytes, new_header}
use v_net.Protocol.Header.Wire.{header_bytes_lem, wire_header}
use v_net.NetQueue.Element.{NetworkElement}
use v_net.NetQueue.Write.{Outgoing, Sent, send, send_message, send_body, flush_write_buffer}
use v_net.NetQueue.Write.Order.{
  pending, IsBounded, send-order, send-IsBounded, flush_write_buffer-order,
}
use v_net.Base.{
  false, Bool, subst, Option-cases, inl, inr, Bool-cases, append_assoc, refl, ◌%◌, append-nil, sym,
  ap, ◌>>=◌, if◌then◌else◌, ◌∙◌, ℕ, List, [], ◌∷◌, ◌++◌, ◌≡◌, arith, length, true, Option, none,
  some, ◌<◌, ◌^◌,
}

-- Two calls in order are in order as one.
pub chain :
    (w w' owed owed' owed'' xs ys : List ℕ)
    → w ++ owed' ≡ owed ++ xs
    → w' ++ owed'' ≡ owed' ++ ys
    → (w ++ w') ++ owed'' ≡ owed ++ (xs ++ ys)
chain w w' owed owed' owed'' xs ys h h' =
    append_assoc w w' owed''
    ∙ ap (λ l. w ++ l) h'
    ∙ sym (append_assoc w owed' ys)
    ∙ ap (λ l. l ++ ys) h
    ∙ append_assoc owed xs ys

send_body-order :
    (body owed xs : List ℕ) (first : Sent)
    → IsBounded first.element
    → first.wire ++ pending first.element ≡ owed ++ xs
    → (send_body body first).ok ≡ true
    → (send_body body first).wire ++ pending (send_body body first).element ≡ owed ++ (xs ++ body)
unfolding send_body
send_body-order [] owed xs first i e h = e ∙ ap (λ l. owed ++ l) (sym (append-nil xs))
send_body-order (b ∷ bs) owed xs first i e h =
    let next = send-order (b ∷ bs) first.element first.script i h in
    chain first.wire _ owed (pending first.element) _ xs (b ∷ bs) e next

-- The body goes out only if the header did.
guarded-order :
    (ok : Bool) (body owed xs : List ℕ) (first : Sent)
    → first.ok ≡ ok
    → IsBounded first.element
    → (first.ok ≡ true → first.wire ++ pending first.element ≡ owed ++ xs)
    → (if ok then send_body body first else first).ok ≡ true
    → (if ok then send_body body first else first).wire
        ++ pending (if ok then send_body body first else first).element
      ≡ owed ++ (xs ++ body)
guarded-order true body owed xs first e i f h = send_body-order body owed xs first i (f e) h
guarded-order false body owed xs first e i f h = absurd (ground arith)

-- When sending a message whose body is shorter than 2 ^ 32 bytes succeeds, what is on the wire and
-- what the queue then owes are what it owed before, the header of the message and its body.
pub send_message-order :
    (o : ByteOrder) (type : PacketType) (body : List ℕ) (el : NetworkElement) (s : List Outgoing)
    → IsBounded el
    → length body < 2 ^ 32
    → type < 2 ^ 16
    → (send_message o type (some body) el s).ok ≡ true
    → (send_message o type (some body) el s).wire
        ++ pending (send_message o type (some body) el s).element
      ≡ pending el ++ (wire_header (length body) type ++ body)
unfolding send_message send_body
send_message-order o type body el s i n t h =
    let size : length body % 2 ^ 32 ≡ length body = omega arith in
    let bytes = header_bytes o (new_header o (length body % 2 ^ 32) type) in
    let header : bytes ≡ wire_header (length body) type =
      ap (λ k. header_bytes o (new_header o k type)) size
      ∙ header_bytes_lem o (length body) type n t in
    guarded-order (send bytes el s).ok body (pending el) (wire_header (length body) type)
      (send bytes el s) refl (send-IsBounded bytes el s i)
      (λ e. send-order bytes el s i e ∙ ap (λ l. pending el ++ l) header) h

send_body-IsBounded :
    (body : List ℕ) (first : Sent)
    → IsBounded first.element
    → IsBounded (send_body body first).element
unfolding send_body
send_body-IsBounded [] first i = i
send_body-IsBounded (b ∷ bs) first i = send-IsBounded (b ∷ bs) first.element first.script i

pub send_message-IsBounded :
    (o : ByteOrder) (type : PacketType) (body : List ℕ) (el : NetworkElement) (s : List Outgoing)
    → IsBounded el
    → IsBounded (send_message o type (some body) el s).element
unfolding send_message
send_message-IsBounded o type body el s i =
    let header = header_bytes o (new_header o (length body % 2 ^ 32) type) in
    let first = send header el s in
    let bounded = send-IsBounded header el s i in
    elim (Bool-cases first.ok) [
      | inl e ↦ rw e (send_body-IsBounded body first bounded)
      | inr e ↦ rw e bounded
    ]

-- A caller's `send`, or the `flush_write_buffer` of a round of the event loop.
pub data Call : Type 0 where
  sends : List ℕ → List Outgoing → Call
  flushes : List Outgoing → Call

make : Call → NetworkElement → Sent
make (sends bytes s) el = send bytes el s
make (flushes s) el = flush_write_buffer el s

-- The bytes that the calls are given.
pub given : List Call → List ℕ
given [] = []
given (sends bytes s ∷ cs) = bytes ++ given cs
given (flushes s ∷ cs) = given cs

-- What the calls put on the wire and leave, if all of them succeed.
unfoldable pub make_all : List Call → NetworkElement → Option (List ℕ × NetworkElement)
unfolding make
make_all [] el = some ([], el)
make_all (c ∷ cs) el =
    let r = make c el in
    let rest = make_all cs r.element in
    if r.ok then (do (wire, el') ← rest; some (r.wire ++ wire, el')) else none

given-cons : (c : Call) (cs : List Call) → given (c ∷ []) ++ given cs ≡ given (c ∷ cs)
unfolding given
given-cons (sends bytes s) cs = ap (λ l. l ++ given cs) (append-nil bytes)
given-cons (flushes s) cs = refl

make-order :
    (c : Call) (el : NetworkElement)
    → IsBounded el
    → (make c el).ok ≡ true
    → ((make c el).wire ++ pending (make c el).element ≡ pending el ++ given (c ∷ []))
      × IsBounded (make c el).element
unfolding make given
make-order (sends bytes s) el i h = (
  send-order bytes el s i h ∙ ap (λ xs. pending el ++ xs) (sym (append-nil bytes)),
  send-IsBounded bytes el s i,
)
make-order (flushes s) el i h =
    let (e, i') = flush_write_buffer-order el s i in (e ∙ sym (append-nil (pending el)), i')

-- However calls of `send` and `flush_write_buffer` alternate, as long as all succeed: the wire and
-- what is owed at the end are, in order, what was owed at first and all the bytes given. And the
-- bytes owed never exceed WRITE_BUFFER_MAX.
pub make_all-order :
    (cs : List Call) (el el' : NetworkElement) (wire : List ℕ)
    → IsBounded el
    → make_all cs el ≡ some (wire, el')
    → (wire ++ pending el' ≡ pending el ++ given cs) × IsBounded el'
unfolding make_all given
make_all-order [] el el' wire i h =
    let same : el ≡ el' = ground arith in
    let nothing : wire ≡ [] = ground arith in
    (
      ap (λ l. l ++ pending el') nothing ∙ ap pending (sym same) ∙ sym (append-nil (pending el)),
      subst IsBounded same i,
    )
make_all-order (c ∷ cs) el el' wire i h = elim (Bool-cases (make c el).ok) [
  | inr e ↦ absurd (ground arith)
  | inl e ↦ elim (Option-cases (make_all cs (make c el).element)) [
    | inl f ↦ absurd (ground arith)
    | inr ((more, last), f) ↦
        let (one, i') = make-order c el i e in
        let (others, i'') = make_all-order cs (make c el).element last more i' f in
        let both =
          chain (make c el).wire more (pending el) (pending (make c el).element) (pending last)
            (given (c ∷ [])) (given cs) one others in
        ground (arith, both, i'', given-cons c cs)
  ]
]
