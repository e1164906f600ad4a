-- ===== src/NetQueue/Queue/Close.antt =====
-- Closing descriptors in src/netqueue/netqueue.cpp: `close` and the destructor.
use v_net.Base.{
  subst, ℕ, ℤ, none, some, List, [], ◌∷◌, ◌≡◌, refl, ap, ◌∙◌, arith, nat_eq, int_eq, ◌==◌,
  if◌then◌else◌, inl, inr, Option-cases,
}
use v_net.Base.Map.{erase-none, find, erase, find-erase, erase-IsMap}
use v_net.Base.Heap.{field_at-erase, field_at-find}
use v_net.NetQueue.Element.{NetworkElement}
use v_net.NetQueue.Queue.{
  Queue, close, close_element, get_network_element_from_fd, delete_all, destroy,
}
use v_net.NetQueue.Queue.Sound.{fd_at, IsSound}

-- The state after an element was taken out of the table and deleted.
abbrev pub without : ℕ → ℤ → Queue → Queue
without p fd q = record {
  elements = erase p q.elements;
  fd_to_network_element = erase fd q.fd_to_network_element;
}

pub fd_at-erase :
    (p r : ℕ) (elements : List (ℕ × NetworkElement))
    → fd_at r (erase p elements) ≡ (if p == r then none else fd_at r elements)
fd_at-erase p r elements = field_at-erase (λ el. el.fd) p r elements

pub without-IsSound :
    (p : ℕ) (fd : ℤ) (q : Queue)
    → IsSound q
    → find fd q.fd_to_network_element ≡ some p
    → IsSound (without p fd q)
unfolding IsSound
without-IsSound p fd q sound at = (
  (λ fd' r e. ground (
    arith,
    sound.0 fd' r,
    sound.0 fd p at,
    int_eq.same_iff fd fd',
    find-erase fd fd' q.fd_to_network_element,
    fd_at-erase p r q.elements,
  )),
  (λ fd' r e. ground (
    arith,
    at,
    sound.1 fd' r,
    int_eq.same_iff fd fd',
    find-erase fd fd' q.fd_to_network_element,
    fd_at-erase p r q.elements,
  )),
  erase-IsMap fd q.fd_to_network_element sound.2,
)

-- The element of a descriptor in the table.
pub element_at :
    (fd : ℤ) (p : ℕ) (q : Queue)
    → IsSound q
    → find fd q.fd_to_network_element ≡ some p
    → (el : NetworkElement) × (find p q.elements ≡ some el) × (el.fd ≡ fd)
unfolding IsSound
element_at fd p q sound at =
    let here = sound.0 fd p at in
    let (el, found, same) =
      field_at-find (λ el. el.fd) p q.elements (λ gone. ground (arith, here, gone)) in
    (el, found, ground (arith, here, same))

-- `close` on a live element that the table knows.
pub close_element-known :
    (p : ℕ) (el : NetworkElement) (q : Queue)
    → find p q.elements ≡ some el
    → find el.fd q.fd_to_network_element ≡ some p
    → close_element (some p) q ≡ some (without p el.fd q, el.fd ∷ [])
unfolding close_element
close_element-known p el q found at = ground (arith, found, at)

-- Closing a descriptor deletes its element, if there is one, closes it once, and leaves all others
-- alone.
pub close-IsSound :
    (fd : ℤ) (q : Queue)
    → IsSound q
    → (q' : Queue) × (closed : List ℤ) × (close fd q ≡ some (q', closed))
      × IsSound q'
      × (closed ≡ (elim (get_network_element_from_fd fd q) [ none ↦ [] | some p ↦ fd ∷ [] ]))
      × ((fd' : ℤ)
          → get_network_element_from_fd fd' q'
            ≡ (if fd == fd' then none else get_network_element_from_fd fd' q))
unfolding close
close-IsSound fd q sound = elim (Option-cases (find fd q.fd_to_network_element)) [
  | inl e ↦ (
    q,
    [],
    ground (arith, e),
    sound,
    ground (arith, e),
    (λ fd'. ground (arith, e, int_eq.same_iff fd fd')),
  )
  | inr (p, e) ↦
      let (el, found, same) = element_at fd p q sound e in
      (
        without p fd q,
        fd ∷ [],
        ap (λ o. close_element o q) e
            ∙ close_element-known p el q found (ap (λ x. find x q.fd_to_network_element) same ∙ e)
            ∙ ap (λ x. some (without p x q, x ∷ [])) same,
        without-IsSound p fd q sound e,
        ground (arith, e),
        (λ fd'. find-erase fd fd' q.fd_to_network_element),
      )
]

-- The keys of a table.
abbrev pub keys : List (ℤ × ℕ) → List ℤ
keys [] = []
keys ((fd, p) ∷ rest) = fd ∷ keys rest

head_lem :
    (fd : ℤ) (p : ℕ) (rest : List (ℤ × ℕ))
    → find fd rest ≡ none
    → (find fd ((fd, p) ∷ rest) ≡ some p) × (erase fd ((fd, p) ∷ rest) ≡ rest)
unfolding find erase
head_lem fd p rest once = (
  ground (arith, int_eq.same_iff fd fd),
  ground (arith, int_eq.same_iff fd fd, erase-none fd rest once),
)

empty_table :
    (elements : List (ℕ × NetworkElement)) (p : ℕ)
    → IsSound (record { elements = elements; fd_to_network_element = [] })
    → fd_at p elements ≡ none
unfolding IsSound find
empty_table elements p sound = elim (Option-cases (fd_at p elements)) [
  | inl e ↦ e
  | inr (fd, e) ↦ let at = sound.1 fd p e in absurd (ground (arith, at))
]

rest-IsSound :
    (fd : ℤ) (p : ℕ) (rest : List (ℤ × ℕ)) (elements : List (ℕ × NetworkElement))
    → IsSound (record { elements = elements; fd_to_network_element = (fd, p) ∷ rest })
    → (find fd ((fd, p) ∷ rest) ≡ some p)
      × IsSound (record { elements = erase p elements; fd_to_network_element = rest })
unfolding IsSound
rest-IsSound fd p rest elements sound =
    let q : Queue = record { elements = elements; fd_to_network_element = (fd, p) ∷ rest } in
    let (at, tail) = head_lem fd p rest sound.2.0 in
    let sound' = without-IsSound p fd q sound at in
    (
      at,
      subst (λ t. IsSound (record { elements = erase p elements; fd_to_network_element = t })) tail
          sound',
    )

delete_all-keys :
    (table : List (ℤ × ℕ)) (elements : List (ℕ × NetworkElement))
    → IsSound (record { elements = elements; fd_to_network_element = table })
    → (left : List (ℕ × NetworkElement)) × (delete_all table elements ≡ some (left, keys table))
      × ((p : ℕ) → fd_at p left ≡ none)
unfolding delete_all
delete_all-keys [] elements sound = (elements, refl, (λ p. empty_table elements p sound))
delete_all-keys ((fd, p) ∷ rest) elements sound =
    let q : Queue = record { elements = elements; fd_to_network_element = (fd, p) ∷ rest } in
    let (at, sound') = rest-IsSound fd p rest elements sound in
    let (el, found, same) = element_at fd p q sound at in
    let (left, deleted, empty) = delete_all-keys rest (erase p elements) sound' in
    (left, rw (found, deleted) refl, empty)

-- The destructor deletes live elements only, closes every descriptor of the table once, in the
-- table's order, and leaves no element.
pub destroy-keys :
    (q : Queue)
    → IsSound q
    → (left : List (ℕ × NetworkElement)) × (destroy q
        ≡ some
            (record { elements = left; fd_to_network_element = [] }, keys q.fd_to_network_element))
      × ((p : ℕ) → fd_at p left ≡ none)
unfolding destroy
destroy-keys q sound =
    let (left, deleted, empty) = delete_all-keys q.fd_to_network_element q.elements sound in
    (left, rw deleted refl, empty)
