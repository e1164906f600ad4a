-- ===== src/Base/Pointers.antt =====
-- A `std::vector` of pointers, with `std::find` and the erase-remove idiom.
use Prim.Native.Nat.{ℕ}
use mathlib.Core.Path.{◌≡◌, refl}
use mathlib.Core.Bool.{Bool, false, true}
use mathlib.Core.List.{List, [], ◌∷◌, ◌++◌}
use native.Mathlib.Omega.{arith}
use v_net.Base.Tests.{nat_eq, ◌==◌, if◌then◌else◌}

unfoldable pub member : ℕ → List ℕ → Bool
member p [] = false
member p (q ∷ qs) = let rest = member p qs in if q == p then true else rest

-- `v.erase(std::remove(v.begin(), v.end(), p), v.end())`
unfoldable pub remove : ℕ → List ℕ → List ℕ
remove p [] = []
remove p (q ∷ qs) = let rest = remove p qs in if q == p then rest else q ∷ rest

pub member-remove :
    (q p : ℕ) (qs : List ℕ) → member q (remove p qs) ≡ (if p == q then false else member q qs)
unfolding member remove
member-remove q p [] = ground arith
member-remove q p (x ∷ qs) = ground (arith, member-remove q p qs)

pub member-append :
    (q p : ℕ) (qs : List ℕ) → member q (qs ++ p ∷ []) ≡ (if p == q then true else member q qs)
unfolding member
member-append q p [] = refl
member-append q p (x ∷ qs) = ground (arith, member-append q p qs)
