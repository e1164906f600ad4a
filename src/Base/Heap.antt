-- ===== src/Base/Heap.antt =====
-- Objects on a heap, an association list by address, and one field of them.
use Prim.Native.Nat.{ℕ}
use mathlib.Core.Path.{◌≡◌}
use mathlib.Core.Logic.{◌≢◌, inl, inr}
use mathlib.Core.Option.{Option, none, some}
use mathlib.Core.List.{List}
use native.Mathlib.Omega.{arith}
use v_net.Base.Tests.{nat_eq, ◌==◌, if◌then◌else◌, Option-cases}
use v_net.Base.Map.{find, insert, erase, find-insert, find-erase}

module _ {V R : Type 0} (f : V → R) where
  -- The field of the object at an address, if it is live.
  unfoldable pub field_at : ℕ → List (ℕ × V) → Option R
  field_at p m = elim (find p m) [ none ↦ none | some v ↦ some (f v) ]

  pub field_at-insert :
      (p q : ℕ) (v : V) (m : List (ℕ × V))
      → field_at q (insert p v m) ≡ (if p == q then some (f v) else field_at q m)
  unfolding field_at
  field_at-insert p q v m = ground (arith, find-insert p q v m)

  pub field_at-erase :
      (p q : ℕ) (m : List (ℕ × V))
      → field_at q (erase p m) ≡ (if p == q then none else field_at q m)
  unfolding field_at
  field_at-erase p q m = ground (arith, find-erase p q m)

  -- The object of a live pointer.
  pub field_at-find :
      (p : ℕ) (m : List (ℕ × V))
      → field_at p m ≢ none
      → (v : V) × (find p m ≡ some v) × (field_at p m ≡ some (f v))
  unfolding field_at
  field_at-find p m live = elim (Option-cases (find p m)) [
    | inl e ↦ absurd (live (ground arith))
    | inr (v, e) ↦ (v, e, ground arith)
  ]
