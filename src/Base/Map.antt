-- ===== src/Base/Map.antt =====
-- `std::unordered_map` as an association list: `m[k] = v`, `find`, `erase` and `erase` in a loop.
use Prim.Native.Nat.{◌+◌}
use mathlib.Core.Path.{◌≡◌, refl}
use mathlib.Core.Bool.{Bool}
use mathlib.Core.Option.{Option, none, some}
use mathlib.Core.List.{List, [], ◌∷◌}
use native.Mathlib.Omega.{arith}
use v_net.Base.Tests.{Eq, ◌==◌, if◌then◌else◌}
use v_net.Base.Lists.{length}

-- The value, unless the test removes it.
abbrev pub unless {κ} : {V : Type κ} → (V → Bool) → Option V → Option V
unless p none = none
unless p (some v) = if p v then none else some v

module _ {ℓ κ} {K : Type ℓ} {V : Type κ} ⦃e : Eq K⦄ where
  unfoldable pub find : K → List (K × V) → Option V
  find k [] = none
  find k ((j, v) ∷ m) = if j == k then some v else find k m

  unfoldable pub insert : K → V → List (K × V) → List (K × V)
  insert k v [] = (k, v) ∷ []
  insert k v ((j, w) ∷ m) = if j == k then (k, v) ∷ m else (j, w) ∷ insert k v m

  unfoldable pub erase : K → List (K × V) → List (K × V)
  erase k [] = []
  erase k ((j, w) ∷ m) = let rest = erase k m in if j == k then rest else (j, w) ∷ rest

  pub find-insert :
      (k j : K) (v : V) (m : List (K × V))
      → find j (insert k v m) ≡ (if k == j then some v else find j m)
  unfolding find insert
  find-insert k j v [] = refl
  find-insert k j v ((i, w) ∷ m) =
      ground (arith, e.same_iff k j, e.same_iff i k, e.same_iff i j, find-insert k j v m)

  pub find-erase :
      (k j : K) (m : List (K × V)) → find j (erase k m) ≡ (if k == j then none else find j m)
  unfolding find erase
  find-erase k j [] = ground arith
  find-erase k j ((i, w) ∷ m) =
      ground (arith, e.same_iff k j, e.same_iff i k, e.same_iff i j, find-erase k j m)

  -- `for (it = begin; it != end; ) if (p(it->second)) it = erase(it); else ++it;`
  unfoldable pub erase_if : (V → Bool) → List (K × V) → List (K × V)
  erase_if p [] = []
  erase_if p ((j, w) ∷ m) = let rest = erase_if p m in if p w then rest else (j, w) ∷ rest

  -- No key stands twice, which the operations keep.
  abbrev pub IsMap : List (K × V) → Type κ
  IsMap [] = Unit
  IsMap ((k, v) ∷ m) = (find k m ≡ none) × IsMap m

  pub insert-IsMap : (k : K) (v : V) (m : List (K × V)) → IsMap m → IsMap (insert k v m)
  unfolding insert find
  insert-IsMap k v [] d = (refl, tt)
  insert-IsMap k v ((j, w) ∷ m) d =
      ground (arith, e.same_iff j k, e.same_iff k j, find-insert k j v m, insert-IsMap k v m d.1)

  pub erase-IsMap : (k : K) (m : List (K × V)) → IsMap m → IsMap (erase k m)
  unfolding erase
  erase-IsMap k [] d = tt
  erase-IsMap k ((j, w) ∷ m) d =
      ground (arith, e.same_iff j k, e.same_iff k j, find-erase k j m, erase-IsMap k m d.1)

  pub find-erase_if :
      (p : V → Bool) (k : K) (m : List (K × V))
      → IsMap m
      → find k (erase_if p m) ≡ unless p (find k m)
  unfolding find erase_if
  find-erase_if p k [] d = refl
  find-erase_if p k ((j, w) ∷ m) d = ground (arith, e.same_iff j k, find-erase_if p k m d.1)

  pub erase_if-IsMap : (p : V → Bool) (m : List (K × V)) → IsMap m → IsMap (erase_if p m)
  unfolding erase_if
  erase_if-IsMap p [] d = tt
  erase_if-IsMap p ((j, w) ∷ m) d = ground (arith, find-erase_if p j m d.1, erase_if-IsMap p m d.1)

  pub length-insert :
      (k : K) (v : V) (m : List (K × V))
      → length (insert k v m) ≡ (elim (find k m) [ none ↦ length m + 1 | some w ↦ length m ])
  unfolding insert find
  length-insert k v [] = omega arith
  length-insert k v ((j, w) ∷ m) = ground (arith, length-insert k v m)

  pub erase-none : (k : K) (m : List (K × V)) → find k m ≡ none → erase k m ≡ m
  unfolding erase find
  erase-none k [] h = refl
  erase-none k ((j, w) ∷ m) h = ground (arith, erase-none k m)

  pub length-erase :
      (k : K) (m : List (K × V))
      → IsMap m
      → length m ≡ (elim (find k m) [ none ↦ length (erase k m) | some w ↦ length (erase k m) + 1 ])
  unfolding erase find
  length-erase k [] d = refl
  length-erase k ((j, w) ∷ m) d =
      ground (arith, e.same_iff j k, length-erase k m d.1, erase-none k m)

  pub find-insert_self : (k : K) (v : V) (m : List (K × V)) → find k (insert k v m) ≡ some v
  find-insert_self k v m = ground (arith, find-insert k k v m, e.same_iff k k)

  pub find-erase_self : (k : K) (m : List (K × V)) → find k (erase k m) ≡ none
  find-erase_self k m = ground (arith, find-erase k k m, e.same_iff k k)

  -- The last value of a key stays.
  pub insert-insert :
      (k : K) (v w : V) (m : List (K × V)) → insert k w (insert k v m) ≡ insert k w m
  unfolding insert
  insert-insert k v w [] = ground (arith, e.same_iff k k)
  insert-insert k v w ((j, x) ∷ m) = ground (arith, e.same_iff k k, insert-insert k v w m)

  -- A value that is there already.
  pub insert-find : (k : K) (v : V) (m : List (K × V)) → find k m ≡ some v → insert k v m ≡ m
  unfolding insert find
  insert-find k v [] h = absurd (ground arith)
  insert-find k v ((j, x) ∷ m) h = ground (arith, e.same_iff j k, insert-find k v m)
