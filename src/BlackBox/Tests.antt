-- ===== src/BlackBox/Tests.antt =====
-- The routing table, the indices of the registry and the hooks of the engine at concrete values.
use v_net.Base.Map.{find}
use v_net.BlackBox.AgentRegistry.{AgentEntry, find_by_fd, find_by_ipv4, deref}
use v_net.BlackBox.AgentRegistry.Sound.{IsFresh}
use v_net.BlackBox.RoutingTable.{lookup}
use v_net.BlackBox.RoutingTable.History.{removes_for, lookup-run, run, next_hop, sets, Call}
use v_net.BlackBox.Config.{Config, find_ip_for_agent}
use v_net.BlackBox.Config.Names.{IsConsistent}
use v_net.BlackBox.Engine.{
  BlackBox, init, on_agent_authenticated, on_agent_disconnected, on_route_update,
}
use v_net.BlackBox.Engine.Decide.{Live}
use v_net.BlackBox.Engine.Hooks.{
  IsValid, init-IsValid, on_agent_authenticated_known, on_agent_disconnected_lem,
  on_route_update_lem,
}
use v_net.Base.{
  inl, text_eq, arith, int_eq, nat_eq, true, ℕ, some, List, [], ◌∷◌, ◌≡◌, refl, ◌≢◌, ◌↔◌, pos, ◌==◌,
  if◌then◌else◌, is_neg, minus_one,
}

abbrev one_name : Config
one_name = record {
  name_to_ip = (b'a' ∷ [], 1) ∷ [];
  ip_to_name = (1, b'a' ∷ []) ∷ [];
  agent_acl = [];
  internet_acl = [];
}

one_name-IsConsistent : IsConsistent one_name
unfolding find
one_name-IsConsistent = record {
  forward = λ n ip h. ground (arith, text_eq.same_iff (b'a' ∷ []) n);
  backward = λ n ip h. ground (arith, text_eq.same_iff (b'a' ∷ []) n);
  nonzero = λ n ip h. ground (arith, text_eq.same_iff (b'a' ∷ []) n);
}

abbrev fresh_engine : BlackBox
fresh_engine = init one_name (pos 5)

fresh_engine-IsValid : IsValid fresh_engine
fresh_engine-IsValid = init-IsValid one_name (pos 5) one_name-IsConsistent

no_agents : (p : ℕ) (x : AgentEntry) → find p fresh_engine.registry.heap ≡ some x → ⊥
unfolding find init
no_agents p x h = ground arith

known : find_ip_for_agent one_name (b'a' ∷ []) ≢ 0
unfolding find_ip_for_agent find
known h = omega arith

fresh : (p : ℕ) → some 100 ≡ some p → IsFresh (b'a' ∷ []) p fresh_engine.registry
unfolding find init
fresh p e = inl refl

on_agent_authenticated_known_example :
    (b' : BlackBox) × (on_agent_authenticated (some 100) (b'a' ∷ []) (pos 7) fresh_engine
      ≡ some (b', true))
    × IsValid b'
    × (b'.config ≡ fresh_engine.config)
    × (b'.routing ≡ fresh_engine.routing)
    × (b'.tun_fd ≡ fresh_engine.tun_fd)
    × ((p : ℕ)
        → some 100 ≡ some p
        → (find_by_fd (pos 7) b'.registry ≡ some p)
          × (find_by_ipv4 (find_ip_for_agent fresh_engine.config (b'a' ∷ [])) b'.registry ≡ some p)
          × (deref p b'.registry
              ≡ some (record {
                name = b'a' ∷ [];
                virtual_ipv4 = find_ip_for_agent fresh_engine.config (b'a' ∷ []);
                fd = pos 7;
              })))
unfolding init
on_agent_authenticated_known_example =
    on_agent_authenticated_known fresh_engine fresh_engine-IsValid (some 100) (b'a' ∷ []) (pos 7)
      known fresh (λ p x h. absurd (no_agents p x h))

on_agent_disconnected_example :
    (b' : BlackBox) × (on_agent_disconnected (pos 7) fresh_engine ≡ some b')
    × IsValid b'
    × ((x : AgentEntry) → Live b' x ↔ (Live fresh_engine x × (x.fd ≢ pos 7)))
on_agent_disconnected_example = on_agent_disconnected_lem fresh_engine fresh_engine-IsValid (pos 7)

on_route_update_example :
    IsValid (on_route_update 9 (pos 4) fresh_engine)
    × ((k : ℕ)
        → lookup (on_route_update 9 (pos 4) fresh_engine).routing k ≡ (
            if 9 == k
            then (if is_neg (pos 4) then minus_one else pos 4)
            else lookup fresh_engine.routing k))
on_route_update_example = on_route_update_lem fresh_engine 9 (pos 4) fresh_engine-IsValid

abbrev routed_engine : BlackBox
routed_engine = on_route_update 9 (pos 4) fresh_engine

abbrev some_calls : List Call
some_calls = removes_for (pos 4) ∷ sets 9 (pos 6) ∷ sets 8 (pos 4) ∷ sets 9 (pos 4) ∷ []

lookup-run_example : lookup (run some_calls) 9 ≡ next_hop some_calls 9
lookup-run_example = lookup-run some_calls 9
