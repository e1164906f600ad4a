-- ===== src/BlackBox/RoutingTable/History.antt =====
-- A routing table against the history of the calls made on it.
use v_net.Base.{
  ℕ, ◌≡◌, refl, List, [], ◌∷◌, ℤ, nat_eq, int_eq, minus_one, ◌==◌, if◌then◌else◌, arith,
}
use v_net.Base.Map.{
  find, find-insert, find-erase, find-erase_if, insert-IsMap, erase-IsMap, erase_if-IsMap, IsMap,
}
use v_net.BlackBox.RoutingTable.{
  RoutingTable, no_routes, set_route, remove_route, remove_routes_for_switch, lookup, clear,
}

-- No destination has two routes.
abbrev pub IsValid : RoutingTable → Type 0
IsValid t = IsMap t.routes

pub data Call : Type 0 where
  sets : ℕ → ℤ → Call
  removes : ℕ → Call
  removes_for : ℤ → Call
  clears : Call

pub apply : Call → RoutingTable → RoutingTable
apply (sets d fd) t = set_route d fd t
apply (removes d) t = remove_route d t
apply (removes_for fd) t = remove_routes_for_switch fd t
apply clears t = clear t

-- The calls, latest first.
pub run : List Call → RoutingTable
run [] = no_routes
run (c ∷ cs) = apply c (run cs)

-- What a history, latest call first, says of a destination: its last assignment, unless a later
-- call has withdrawn it. -1 stands for no route.
pub next_hop : List Call → ℕ → ℤ
next_hop [] d = minus_one
next_hop (sets k fd ∷ cs) d = if k == d then fd else next_hop cs d
next_hop (removes k ∷ cs) d = if k == d then minus_one else next_hop cs d
next_hop (removes_for fd ∷ cs) d = let old = next_hop cs d in if old == fd then minus_one else old
next_hop (clears ∷ cs) d = minus_one

module _ (d : ℕ) (fd : ℤ) (t : RoutingTable) where
  pub set_route-IsValid : IsValid t → IsValid (set_route d fd t)
  unfolding set_route
  set_route-IsValid v = insert-IsMap d fd t.routes v

  pub lookup-set_route : (k : ℕ) → lookup (set_route d fd t) k ≡ (if d == k then fd else lookup t k)
  unfolding lookup set_route
  lookup-set_route k = ground (arith, find-insert d k fd t.routes)

module _ (d : ℕ) (t : RoutingTable) where
  pub remove_route-IsValid : IsValid t → IsValid (remove_route d t)
  unfolding remove_route
  remove_route-IsValid v = erase-IsMap d t.routes v

  pub lookup-remove_route :
      (k : ℕ) → lookup (remove_route d t) k ≡ (if d == k then minus_one else lookup t k)
  unfolding lookup remove_route
  lookup-remove_route k = ground (arith, find-erase d k t.routes)

module _ (fd : ℤ) (t : RoutingTable) where
  pub remove_routes_for_switch-IsValid : IsValid t → IsValid (remove_routes_for_switch fd t)
  unfolding remove_routes_for_switch
  remove_routes_for_switch-IsValid v = erase_if-IsMap _ t.routes v

  pub lookup-remove_routes_for_switch :
      (k : ℕ)
      → IsValid t
      → lookup (remove_routes_for_switch fd t) k
        ≡ (if lookup t k == fd then minus_one else lookup t k)
  unfolding lookup remove_routes_for_switch
  lookup-remove_routes_for_switch k v = ground (arith, find-erase_if (λ x. x == fd) k t.routes v)

run-IsValid : (cs : List Call) → IsValid (run cs)
unfolding run apply clear
run-IsValid [] = tt
run-IsValid (sets d fd ∷ cs) = set_route-IsValid d fd (run cs) (run-IsValid cs)
run-IsValid (removes d ∷ cs) = remove_route-IsValid d (run cs) (run-IsValid cs)
run-IsValid (removes_for fd ∷ cs) = remove_routes_for_switch-IsValid fd (run cs) (run-IsValid cs)
run-IsValid (clears ∷ cs) = tt

-- After any sequence of calls on a fresh table, `lookup` returns for every destination the switch
-- of the last `set_route` that no later `remove_route`, `remove_routes_for_switch` or `clear`
-- withdrew, and -1 where there is none.
pub lookup-run : (cs : List Call) (d : ℕ) → lookup (run cs) d ≡ next_hop cs d
unfolding run next_hop apply
lookup-run [] d = unfold lookup find in refl
lookup-run (sets k fd ∷ cs) d = ground (arith, lookup-run cs d, lookup-set_route k fd (run cs) d)
lookup-run (removes k ∷ cs) d = ground (arith, lookup-run cs d, lookup-remove_route k (run cs) d)
lookup-run (removes_for fd ∷ cs) d =
    ground (arith, lookup-run cs d, lookup-remove_routes_for_switch fd (run cs) d (run-IsValid cs))
lookup-run (clears ∷ cs) d = unfold lookup clear find in refl
