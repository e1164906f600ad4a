-- ===== src/Conductor/Pick.antt =====
-- `pick_switch` of src/conductor/setup.cpp: the choice of a switch.
use native.Mathlib.Nat.{mod-lt, mod-eq_of_lt, mod-add-mod, add-mod_right}
use v_net.Base.{
  List-cases, Option-cases, ◌≤◌, Option, ◌^◌, ◌==◌, ℕ, zero, suc, none, some, List, [], ◌∷◌, ◌≡◌,
  ◌≢◌, ◌<◌, ◌+◌, ◌-◌, ◌%◌, inl, inr, refl, sym, ap, ◌∙◌, arith, Bool, true, false, length,
  get_elem?, nat_eq, dec_lt, Text, ℕ_discrete, Bool-cases,
}
use v_net.Base.Map.{find}
use v_net.Base.Pointers.{member}
use v_net.Conductor.{
  pick_found, pick_switch, first_reachable, ConnInfo, ConductorState, is_reachable,
}

-- Whether the agents of the network reach the switch at the address.
unfoldable pub reaches : Text → ConductorState → ℕ → Bool
reaches agent_network s p = elim (find p s.conns) [
  | none ↦ false
  | some sw ↦ is_reachable agent_network sw
]

-- Every switch of the list is a live object.
unfoldable pub HasLiveSwitches : ConductorState → Type 0
HasLiveSwitches s = (p : ℕ) → member p s.switches ≡ true → find p s.conns ≢ none

get_elem?-lt : (xs : List ℕ) (i : ℕ) → i < length xs → (p : ℕ) × (get_elem? xs i ≡ some p)
get_elem?-lt [] i h = absurd (omega arith)
get_elem?-lt (x ∷ xs) zero h = (x, refl)
get_elem?-lt (x ∷ xs) (suc i) h = get_elem?-lt xs i (omega arith)

get_elem?-member : (xs : List ℕ) (i p : ℕ) → get_elem? xs i ≡ some p → member p xs ≡ true
unfolding member
get_elem?-member [] i p h = ground arith
get_elem?-member (x ∷ xs) zero p h = ground arith
get_elem?-member (x ∷ xs) (suc i) p h = ground (arith, get_elem?-member xs i p h)

member-get_elem? :
    (xs : List ℕ) (p : ℕ)
    → member p xs ≡ true
    → (i : ℕ) × (i < length xs) × (get_elem? xs i ≡ some p)
unfolding member
member-get_elem? [] p h = absurd (ground arith)
member-get_elem? (x ∷ xs) p h = elim (Bool-cases (x == p)) [
  | inl e ↦ (0, omega arith, ground arith)
  | inr e ↦
      let (i, inside, found) = member-get_elem? xs p (ground arith) in (suc i, omega arith, found)
]

-- What the agent gets: a switch of the list, and one that it reaches if there is any.
unfoldable pub IsChoice : Text → ConductorState → ℕ → Type 0
IsChoice net s p =
    (member p s.switches ≡ true)
    × ((q : ℕ) → member q s.switches ≡ true → reaches net s q ≡ true → reaches net s p ≡ true)

-- Going round from any start reaches every index.
go_round : (start n k : ℕ) → k < n → (i : ℕ) × (i < n) × ((start + i) % n ≡ k)
go_round start n k h =
    let r = start % n in
    let small : r < n = mod-lt start (omega arith) in
    let split : (i : ℕ) → (start + i) % n ≡ (r + i) % n = λ i. sym (mod-add-mod start n i) in
    elim (dec_lt k r) [
      | no past ↦
          let up : r + (k - r) ≡ k = omega arith in
          (k - r, omega arith, split (k - r) ∙ ap (λ x. x % n) up ∙ mod-eq_of_lt h)
      | yes before ↦
          let up : r + (k + n - r) ≡ k + n = omega arith in
          (
            k + n - r,
            omega arith,
            split (k + n - r) ∙ ap (λ x. x % n) up ∙ add-mod_right k n ∙ mod-eq_of_lt h,
          )
    ]

module _ (net : Text) (s : ConductorState) (live : HasLiveSwitches s)
    (some_switch : 0 < length s.switches) where
  -- The index that the loop looks at in turn `i`.
  abbrev index : ℕ → ℕ
  index i = (s.rr_index + i) % 2 ^ 64 % length s.switches

  index-lt : (i : ℕ) → index i < length s.switches
  index-lt i = mod-lt ((s.rr_index + i) % 2 ^ 64) some_switch

  -- The switch at an index is live.
  switch_at :
      (i : ℕ)
      → (p : ℕ) × (sw : ConnInfo) × (get_elem? s.switches (index i) ≡ some p)
        × (find p s.conns ≡ some sw)
  unfolding HasLiveSwitches
  switch_at i =
      let (p, at) = get_elem?-lt s.switches (index i) (index-lt i) in
      elim (Option-cases (find p s.conns)) [
        | inl gone ↦ absurd (live p (get_elem?-member s.switches (index i) p at) gone)
        | inr (sw, found) ↦ (p, sw, at, found)
      ]

  -- What the answer of the loop over `n` turns from `i` says.
  abbrev IsAnswer : ℕ → ℕ → Option (ℕ × ℕ) → Type 0
  IsAnswer i n (some (idx, p)) = (get_elem? s.switches idx ≡ some p) × (reaches net s p ≡ true)
  IsAnswer i n none =
      (j q : ℕ)
      → i ≤ j
      → j < i + n
      → get_elem? s.switches (index j) ≡ some q
      → reaches net s q ≡ false

  longer_IsAnswer :
      (i n p : ℕ) (r : Option (ℕ × ℕ))
      → get_elem? s.switches (index i) ≡ some p
      → reaches net s p ≡ false
      → IsAnswer (i + 1) n r
      → IsAnswer i (suc n) r
  longer_IsAnswer i n p (some (idx, q)) at out answer = answer
  longer_IsAnswer i n p none at out answer = λ j q a b e. elim (ℕ_discrete i j) [
    | yes same ↦
        let first : some p ≡ some q = sym at ∙ ap (λ k. get_elem? s.switches (index k)) same ∙ e in
        ground (arith, first, out)
    | no other ↦ answer j q (omega arith) (omega arith) e
  ]

  first_reachable-IsAnswer :
      (i n : ℕ) → (r : Option (ℕ × ℕ)) × (first_reachable net s i n ≡ some r) × IsAnswer i n r
  unfolding first_reachable reaches
  first_reachable-IsAnswer i zero = (none, refl, (λ j q a b e. absurd (omega arith)))
  first_reachable-IsAnswer i (suc n) =
      let (p, sw, at, found) = switch_at i in
      elim (Bool-cases (is_reachable net sw)) [
        | inl yes_it ↦ (
          some (index i, p),
          ground (arith, at, found, yes_it),
          (at, ground (arith, found, yes_it)),
        )
        | inr not_it ↦
            let (r, rest, answer) = first_reachable-IsAnswer (i + 1) n in
            (
              r,
              ground (arith, at, found, not_it, rest),
              longer_IsAnswer i n p r at (ground (arith, found, not_it)) answer,
            )
      ]

  -- The loop over all indices that finds nothing has seen every switch.
  none_reached :
      s.rr_index + length s.switches ≤ 2 ^ 64
      → IsAnswer 0 (length s.switches) none
      → (q : ℕ) → member q s.switches ≡ true
      → reaches net s q ≡ false
  none_reached fits answer q m =
      let (k, inside, at) = member-get_elem? s.switches q m in
      let (i, turn, is_k) = go_round s.rr_index (length s.switches) k inside in
      let no_wrap : (s.rr_index + i) % 2 ^ 64 ≡ s.rr_index + i = omega arith in
      answer i q (omega arith) (omega arith) (
        ap (λ j. get_elem? s.switches (j % length s.switches)) no_wrap
        ∙ ap (get_elem? s.switches) is_k
        ∙ at)

  pick_found-lem :
      (r : Option (ℕ × ℕ))
      → IsAnswer 0 (length s.switches) r
      → (p k : ℕ) × (pick_found r s ≡ some (some p, record s { rr_index = k }))
        × (member p s.switches ≡ true)
        × (s.rr_index + length s.switches ≤ 2 ^ 64 → IsChoice net s p)
  unfolding pick_found IsChoice
  pick_found-lem (some (idx, p)) answer =
      let listed = get_elem?-member s.switches idx p answer.0 in
      (p, (idx + 1) % 2 ^ 64, refl, listed, (λ fits. (listed, (λ q m r. answer.1))))
  pick_found-lem none answer =
      let (p, at) =
        get_elem?-lt s.switches (s.rr_index % length s.switches) (mod-lt s.rr_index some_switch) in
      let listed = get_elem?-member s.switches (s.rr_index % length s.switches) p at in
      (
        p,
        (s.rr_index + 1) % 2 ^ 64,
        ground (arith, at),
        listed,
        (λ fits. (listed, (λ q m r. absurd (ground (arith, none_reached fits answer q m))))),
      )

-- `pick_switch` with a switch in the list.
pick_switch-found :
    (net : Text) (s : ConductorState) (r : Option (ℕ × ℕ))
    → 0 < length s.switches
    → first_reachable net s 0 (length s.switches) ≡ some r
    → pick_switch net s ≡ pick_found r s
unfolding pick_switch
pick_switch-found net s r some_switch found =
    let full : (length s.switches == 0) ≡ false = ground (arith, some_switch) in
    rw (full, found) refl

pick_switch-lem :
    (net : Text) (s : ConductorState)
    → HasLiveSwitches s
    → 0 < length s.switches
    → (p k : ℕ) × (pick_switch net s ≡ some (some p, record s { rr_index = k }))
      × (member p s.switches ≡ true)
      × (s.rr_index + length s.switches ≤ 2 ^ 64 → IsChoice net s p)
pick_switch-lem net s live some_switch =
    let (r, found, answer) =
      first_reachable-IsAnswer net s live some_switch 0 (length s.switches) in
    let (p, k, picked, listed, choice) = pick_found-lem net s live some_switch r answer in
    (p, k, pick_switch-found net s r some_switch found ∙ picked, listed, choice)

-- With a switch in the list, all of them live objects, and the index of the round robin not so
-- large that it wraps around, `pick_switch` returns a switch of the list, one in the agent's
-- network or open to all whenever the list has one, and changes nothing but that index.
pub pick_switch-IsChoice :
    (net : Text) (s : ConductorState)
    → HasLiveSwitches s
    → 0 < length s.switches
    → s.rr_index + length s.switches ≤ 2 ^ 64
    → (p k : ℕ) × (pick_switch net s ≡ some (some p, record s { rr_index = k })) × IsChoice net s p
pick_switch-IsChoice net s live some_switch fits =
    let (p, k, picked, listed, choice) = pick_switch-lem net s live some_switch in
    (p, k, picked, choice fits)

-- Without a fault, and with a switch of the list if any.
pub pick_switch-member :
    (net : Text) (s : ConductorState)
    → HasLiveSwitches s
    → (r : Option ℕ) × (k : ℕ) × (pick_switch net s ≡ some (r, record s { rr_index = k }))
      × ((p : ℕ) → r ≡ some p → member p s.switches ≡ true)
unfolding pick_switch
pick_switch-member net s live = elim (List-cases s.switches) [
  | inl empty ↦ (none, s.rr_index, ground (arith, empty), (λ p e. absurd (ground arith)))
  | inr (q, qs, e) ↦
      let (p, k, picked, listed, choice) = pick_switch-lem net s live (ground (arith, e)) in
      (some p, k, picked, (λ p' e. ground (arith, listed)))
]
