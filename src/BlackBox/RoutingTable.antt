-- ===== src/BlackBox/RoutingTable.antt =====
-- src/blackbox/routing_table.cpp: the next-hop switch for each remote destination.
pub mod History
use v_net.Base.{ℕ, Option, none, some, List, [], ℤ, nat_eq, int_eq, minus_one, ◌==◌, length}
use v_net.Base.Map.{find, insert, erase, erase_if}

pub record RoutingTable : Type 0 where
  pub routes : List (ℕ × ℤ)

abbrev pub no_routes : RoutingTable
no_routes = record { routes = [] }

pub set_route : ℕ → ℤ → RoutingTable → RoutingTable
set_route dest_ipv4 next_switch_fd t = record t {
  routes = insert dest_ipv4 next_switch_fd t.routes;
}

pub remove_route : ℕ → RoutingTable → RoutingTable
remove_route dest_ipv4 t = record t { routes = erase dest_ipv4 t.routes }

pub remove_routes_for_switch : ℤ → RoutingTable → RoutingTable
remove_routes_for_switch switch_fd t = record t {
  routes = erase_if (λ fd. fd == switch_fd) t.routes;
}

pub lookup : RoutingTable → ℕ → ℤ
lookup t dest_ipv4 = elim (find dest_ipv4 t.routes) [ none ↦ minus_one | some fd ↦ fd ]

pub size : RoutingTable → ℕ
size t = length t.routes

pub clear : RoutingTable → RoutingTable
clear t = record t { routes = [] }
