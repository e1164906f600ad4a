-- ===== src/NetQueue/Queue/History.antt =====
-- The table of descriptors of src/netqueue/netqueue.cpp over the life of a queue, against the
-- history of the calls.
use v_net.Base.{
  ℕ, ℤ, Bool, Option, none, some, List, [], ◌∷◌, ◌≡◌, ◌∙◌, refl, arith, nat_eq, int_eq, ◌==◌,
  if◌then◌else◌, inl, inr, ◌>>=◌, ◌&&◌, ap, sym, Bool-cases,
}
use v_net.Base.Map.{find, IsMap}
use v_net.Base.Heap.{field_at}
use v_net.NetQueue.Element.{NetworkElement, FiniteStateMachine}
use v_net.NetQueue.Queue.{
  Queue, PutChances, start, put, close, get_network_element_from_fd, destroy,
}
use v_net.NetQueue.Queue.Sound.{fd_at, IsSound, IsSame, IsAdmissible, IsPut, put-IsSound}
use v_net.NetQueue.Queue.Close.{keys, close-IsSound, destroy-keys}

pub data QueueOp : Type 0 where
  puts : PutChances → ℕ → ℤ → ℕ → FiniteStateMachine → QueueOp
  closes : ℤ → QueueOp

unfoldable pub apply : QueueOp → Queue → Option Queue
apply (puts c p fd data_ptr state) q = some (put c p fd data_ptr state q).1
apply (closes fd) q = do (q', closed) ← close fd q; some q'

-- The operations from the last to the first, on a new queue.
unfoldable pub apply_all : List QueueOp → Option Queue
apply_all [] = some start
apply_all (op ∷ ops) = do q ← apply_all ops; apply op q

-- A `put` succeeds if nothing that it calls fails.
abbrev pub succeeds : PutChances → Bool
succeeds c = c.allocates && c.adds && c.stores

-- The element of a descriptor, by the last call that concerns it.
unfoldable pub registered : List QueueOp → ℤ → Option ℕ
registered [] fd = none
registered (puts c p fd' data_ptr state ∷ ops) fd =
    let before = registered ops fd in if succeeds c && fd' == fd then some p else before
registered (closes fd' ∷ ops) fd =
    let before = registered ops fd in if fd' == fd then none else before

-- What the allocator and the kernel see to, at each of the operations.
unfoldable pub AreAdmissible : List QueueOp → Type 0
AreAdmissible [] = Unit
AreAdmissible (puts c p fd data_ptr state ∷ ops) =
    ((q : Queue) → apply_all ops ≡ some q → IsAdmissible c p fd q) × AreAdmissible ops
AreAdmissible (closes fd ∷ ops) = AreAdmissible ops

pub start-IsSound : IsSound start
unfolding IsSound find field_at
start-IsSound = ((λ fd p e. ground (arith, e)), (λ fd p e. ground (arith, e)), tt)

-- The pointer that `put` returns says whether everything succeeded.
put-succeeds :
    (c : PutChances) (p : ℕ) (fd : ℤ) (data_ptr : ℕ) (state : FiniteStateMachine) (q : Queue)
    → (put c p fd data_ptr state q).0 ≡ (if succeeds c then some p else none)
unfolding put
put-succeeds c p fd data_ptr state q = ground arith

-- One operation on a sound queue that agrees with the history.
put-registered :
    (c : PutChances) (p : ℕ) (fd fd' : ℤ) (q q' : Queue) (r before : Option ℕ)
    → r ≡ (if succeeds c then some p else none)
    → IsPut p fd q r q'
    → get_network_element_from_fd fd' q ≡ before
    → get_network_element_from_fd fd' q' ≡ (if succeeds c && fd == fd' then some p else before)
unfolding IsPut IsSame
put-registered c p fd fd' q q' r before e (inl (null, same)) agrees =
    elim (Bool-cases (succeeds c)) [
      | inl all ↦ absurd (ground (arith, e, null, all))
      | inr failed ↦
          let kept : get_network_element_from_fd fd' q' ≡ before =
            ap (λ t. find fd' t) same.0 ∙ agrees in
          ground (arith, failed, kept)
    ]
put-registered c p fd fd' q q' r before e (inr (given, at)) agrees =
    elim (Bool-cases (succeeds c)) [
      | inl all ↦ let here = at fd' in ground (arith, all, here, agrees)
      | inr failed ↦ absurd (ground (arith, e, given, failed))
    ]

history :
    (ops : List QueueOp)
    → AreAdmissible ops
    → (q : Queue) × (apply_all ops ≡ some q)
      × IsSound q
      × ((fd : ℤ) → get_network_element_from_fd fd q ≡ registered ops fd)
unfolding apply_all apply registered AreAdmissible find
history [] ok = (start, refl, start-IsSound, (λ fd. refl))
history (puts c p fd data_ptr state ∷ ops) ok =
    let (q, before, sound, agrees) = history ops ok.1 in
    let (r, q', done, sound', is_put) = put-IsSound c p fd data_ptr state q sound (ok.0 q before) in
    let given : r ≡ (if succeeds c then some p else none) =
      ap (λ x. x.0) (sym done) ∙ put-succeeds c p fd data_ptr state q in
    (
      q',
      rw (before, done) refl,
      sound',
      (λ fd'. put-registered c p fd fd' q q' r (registered ops fd') given is_put (agrees fd')),
    )
history (closes fd ∷ ops) ok =
    let (q, before, sound, agrees) = history ops ok in
    let (q', closed, done, sound', fds, others) = close-IsSound fd q sound in
    (
      q',
      rw (before, done) refl,
      sound',
      (λ fd'. others fd' ∙ ap (λ b. if fd == fd' then none else b) (agrees fd')),
    )

-- After any sequence of calls of `put` and `close`, with fresh addresses and a kernel that refuses a
-- descriptor that is registered: no call was a fault, every descriptor leads to the element that the
-- last successful `put` or `close` of it left, and the destructor then deletes live elements only,
-- closes each descriptor of the table once, and leaves no element.
pub apply_all-registered :
    (ops : List QueueOp)
    → AreAdmissible ops
    → (q : Queue) × (apply_all ops ≡ some q)
      × ((fd : ℤ) → get_network_element_from_fd fd q ≡ registered ops fd)
      × IsMap q.fd_to_network_element
      × ((left : List (ℕ × NetworkElement)) × (destroy q
            ≡ some (
              record { elements = left; fd_to_network_element = [] },
              keys q.fd_to_network_element,
            ))
          × ((p : ℕ) → fd_at p left ≡ none))
unfolding IsSound
apply_all-registered ops ok =
    let (q, done, sound, agrees) = history ops ok in
    (q, done, agrees, sound.2, destroy-keys q (unfold IsSound in sound))
