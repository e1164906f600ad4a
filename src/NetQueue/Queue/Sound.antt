-- ===== src/NetQueue/Queue/Sound.antt =====
-- The table of descriptors of src/netqueue/netqueue.cpp and the elements agree.
use v_net.Base.{
  subst, ◌⊎◌, ◌⊎◌, ℕ, ℤ, true, Option, none, some, List, ◌≡◌, refl, sym, arith, nat_eq, int_eq,
  ◌==◌, if◌then◌else◌, inl, inr, Option-cases, Bool-cases,
}
use v_net.Base.Map.{find, insert, erase, IsMap, find-insert, find-erase, insert-IsMap}
use v_net.Base.Heap.{field_at, field_at-insert}
use v_net.NetQueue.Element.{NetworkElement, FiniteStateMachine, new_element}
use v_net.NetQueue.Queue.{Queue, PutChances, put, get_network_element_from_fd}

-- The descriptor of a live element.
abbrev pub fd_at : ℕ → List (ℕ × NetworkElement) → Option ℤ
fd_at p elements = field_at (λ el. el.fd) p elements

-- The table leads to live elements of the descriptors it is asked for, every live element stands in
-- it, and no descriptor stands in it twice.
unfoldable pub IsSound : Queue → Type 0
IsSound q =
    ((fd : ℤ) (p : ℕ) → find fd q.fd_to_network_element ≡ some p → fd_at p q.elements ≡ some fd)
    × ((fd : ℤ) (p : ℕ) → fd_at p q.elements ≡ some fd → find fd q.fd_to_network_element ≡ some p)
    × IsMap q.fd_to_network_element

-- What the allocator and the kernel see to: a new address is fresh, and a descriptor that is
-- registered is not added again (EEXIST).
unfoldable pub IsAdmissible : PutChances → ℕ → ℤ → Queue → Type 0
IsAdmissible c p fd q =
    (fd_at p q.elements ≡ none) × (c.adds ≡ true → find fd q.fd_to_network_element ≡ none)

-- The same table, and the same elements at every address.
unfoldable pub IsSame : Queue → Queue → Type 0
IsSame q q' =
    (q'.fd_to_network_element ≡ q.fd_to_network_element)
    × ((p : ℕ) → find p q'.elements ≡ find p q.elements)

-- A new element that is deleted again leaves no trace.
erase-insert-IsSame :
    (p : ℕ) (el : NetworkElement) (q : Queue)
    → fd_at p q.elements ≡ none
    → IsSame q (record q { elements = erase p (insert p el q.elements) })
unfolding IsSame field_at
erase-insert-IsSame p el q fresh = (
  refl,
  (λ r. elim (Option-cases (find p q.elements)) [
    | inl gone ↦
        ground (arith, gone, find-erase p r (insert p el q.elements), find-insert p r el q.elements)
    | inr (x, there) ↦ absurd (ground (arith, fresh, there))
  ]),
)

fd_at-fd :
    (p : ℕ) (fd : ℤ) (data_ptr : ℕ) (state : FiniteStateMachine) (r : ℕ)
    (elements : List (ℕ × NetworkElement))
    → fd_at r (insert p (new_element fd data_ptr state) elements)
      ≡ (if p == r then some fd else fd_at r elements)
unfolding new_element
fd_at-fd p fd data_ptr state r elements =
    field_at-insert (λ el. el.fd) p r (new_element fd data_ptr state) elements

stored-IsSound :
    (p : ℕ) (fd : ℤ) (data_ptr : ℕ) (state : FiniteStateMachine) (q : Queue)
    → IsSound q
    → fd_at p q.elements ≡ none
    → find fd q.fd_to_network_element ≡ none
    → IsSound (record q {
      elements = insert p (new_element fd data_ptr state) q.elements;
      fd_to_network_element = insert fd p q.fd_to_network_element;
    })
unfolding IsSound
stored-IsSound p fd data_ptr state q sound fresh free = (
  (λ fd' r e. ground (
    arith,
    fresh,
    sound.0 fd' r,
    int_eq.same_iff fd fd',
    find-insert fd fd' p q.fd_to_network_element,
    fd_at-fd p fd data_ptr state r q.elements,
  )),
  (λ fd' r e. ground (
    arith,
    free,
    sound.1 fd' r,
    int_eq.same_iff fd fd',
    find-insert fd fd' p q.fd_to_network_element,
    fd_at-fd p fd data_ptr state r q.elements,
  )),
  insert-IsMap fd p q.fd_to_network_element sound.2,
)

IsSame-IsSound : (q q' : Queue) → IsSame q q' → IsSound q → IsSound q'
unfolding IsSame IsSound field_at
IsSame-IsSound q q' same sound = (
  (λ fd p e. ground (arith, same.0, same.1 p, sound.0 fd p)),
  (λ fd p e. ground (arith, same.0, same.1 p, sound.1 fd p)),
  subst (λ t. IsMap t) (sym same.0) sound.2,
)

-- What `put` gives and leaves: null and everything as it was, or the new element, found under its
-- descriptor.
unfoldable pub IsPut : ℕ → ℤ → Queue → Option ℕ → Queue → Type 0
IsPut p fd q r q' =
    ((r ≡ none) × IsSame q q')
    ⊎ ((r ≡ some p)
        × ((fd' : ℤ)
            → get_network_element_from_fd fd' q'
              ≡ (if fd == fd' then some p else get_network_element_from_fd fd' q)))

undone-IsPut :
    (p : ℕ) (fd : ℤ) (el : NetworkElement) (q : Queue)
    → IsSound q
    → fd_at p q.elements ≡ none
    → IsSound (record q { elements = erase p (insert p el q.elements) })
      × IsPut p fd q none (record q { elements = erase p (insert p el q.elements) })
unfolding IsPut
undone-IsPut p fd el q sound fresh =
    let q' : Queue = record q { elements = erase p (insert p el q.elements) } in
    let same = erase-insert-IsSame p el q fresh in
    (IsSame-IsSound q q' same sound, inl (refl, same))

-- `put` gives null and leaves everything as it was, or gives the new element and stores it under
-- its descriptor; no other descriptor is affected, and no element is left outside the table.
pub put-IsSound :
    (c : PutChances) (p : ℕ) (fd : ℤ) (data_ptr : ℕ) (state : FiniteStateMachine) (q : Queue)
    → IsSound q
    → IsAdmissible c p fd q
    → (r : Option ℕ) × (q' : Queue) × (put c p fd data_ptr state q ≡ (r, q'))
      × IsSound q'
      × IsPut p fd q r q'
unfolding put IsAdmissible IsPut
put-IsSound c p fd data_ptr state q sound ok =
    let el = new_element fd data_ptr state in
    let (sound', undone) = undone-IsPut p fd el q sound ok.0 in
    let left : Queue = record q { elements = erase p (insert p el q.elements) } in
    elim (Bool-cases c.allocates) [
      | inr e ↦ (none, q, rw e refl, sound, inl (refl, unfold IsSame in (refl, (λ r. refl))))
      | inl e ↦ elim (Bool-cases c.adds) [
        | inr e' ↦ (none, left, rw (e, e') refl, sound', unfold IsPut in undone)
        | inl e' ↦ elim (Bool-cases c.stores) [
          | inr e'' ↦ (none, left, rw (e, e', e'') refl, sound', unfold IsPut in undone)
          | inl e'' ↦ (
            some p,
            record q {
              elements = insert p el q.elements;
              fd_to_network_element = insert fd p q.fd_to_network_element;
            },
            rw (e, e', e'') refl,
            stored-IsSound p fd data_ptr state q sound ok.0 (ok.1 e'),
            inr (refl, (λ fd'. find-insert fd fd' p q.fd_to_network_element)),
          )
        ]
      ]
    ]
