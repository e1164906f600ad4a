-- ===== src/BlackBox/Engine/Hooks.antt =====
-- The hooks of the engine: the invariant that they keep, and what they change for packets.
use v_net.Host.{Endian}
use v_net.Base.Map.{find}
use v_net.BlackBox.AgentRegistry.{AgentEntry, deref, find_by_fd, find_by_ipv4, unregister_by_fd}
use v_net.BlackBox.AgentRegistry.Sound.{
  IsSound, IsFresh, empty-IsSound, register_agent-IsSound, unregisters_fd, apply, apply-IsSound,
  find_by_fd-live,
}
use v_net.BlackBox.AgentRegistry.Agree.{
  Agrees, empty-Agrees, register_agent_keeps, apply-Agrees, register_agent_exact,
  unregister_by_fd_exact,
}
use v_net.BlackBox.RoutingTable.{lookup}
use v_net.BlackBox.RoutingTable.History.{
  IsValid as TableIsValid, set_route-IsValid, remove_route-IsValid,
  remove_routes_for_switch-IsValid, lookup-set_route, lookup-remove_route,
  lookup-remove_routes_for_switch,
}
use v_net.BlackBox.Config.{Config, is_some, find_ip_for_agent}
use v_net.BlackBox.Config.Names.{IsConsistent, find_ip_for_agent-injective}
use v_net.BlackBox.Ipv4.Accept.{header_of}
use v_net.BlackBox.Engine.Valid.{process_from_agent_lem}
use v_net.BlackBox.Engine.{
  process, agent, PacketDecision, forward_switch, farewell, Option, Text, ℕ, ℤ, BlackBox, init,
  on_agent_authenticated, on_agent_disconnected, on_route_update, on_switch_disconnected,
}
use v_net.BlackBox.Engine.Decide.{Live}
use v_net.Base.{
  Bool-cases, int_eq, is_neg, length, minus_one, ◌==◌, ◌≤◌, List, if◌then◌else◌, Option-cases, inr,
  none, inl, ◌↔◌, refl, false, nat_eq, sym, some, arith, ◌≡◌, ◌≢◌,
}

-- The registry is sound, its indices agree, every registered agent has its configured address,
-- and the routing table has one route for a destination.
pub record IsValid (b : BlackBox) : Type 0 where
  pub configured : IsConsistent b.config
  pub sound : IsSound b.registry
  pub agrees : Agrees b.registry
  pub addressed :
      (p : ℕ) (x : AgentEntry)
      → find p b.registry.heap ≡ some x
      → (find_ip_for_agent b.config x.name ≡ x.virtual_ipv4) × (x.virtual_ipv4 ≢ 0)
  pub routes : TableIsValid b.routing

pub init-IsValid : (c : Config) (tun_fd : ℤ) → IsConsistent c → IsValid (init c tun_fd)
unfolding init find
init-IsValid c tun_fd v = record {
  configured = v;
  sound = empty-IsSound;
  agrees = empty-Agrees;
  addressed = λ p x h. absurd (ground arith);
  routes = tt;
}

-- The descriptor belongs to no registered agent of another name.
abbrev pub OwnDescriptor : Text → ℤ → BlackBox → Type 0
OwnDescriptor name fd b =
    (p : ℕ) (x : AgentEntry) → find p b.registry.heap ≡ some x → x.name ≢ name → x.fd ≢ fd

module _ (b : BlackBox) (v : IsValid b) where
  -- No other agent has the address that the configuration gives to this one.
  apart :
      (name : Text) (fd : ℤ)
      → OwnDescriptor name fd b
      → find_ip_for_agent b.config name ≢ 0
      → (p : ℕ) (x : AgentEntry) → find p b.registry.heap ≡ some x
      → x.name ≢ name
      → (x.virtual_ipv4 ≢ find_ip_for_agent b.config name) × (x.fd ≢ fd)
  apart name fd own h p x live other =
      let a = v.addressed p x live in
      (
        λ same.
            other (
              sym (find_ip_for_agent-injective b.config name x.name v.configured h (ground arith))),
        own p x live other,
      )

  -- Authenticating an agent that the configuration does not know is refused and changes nothing.
  pub on_agent_authenticated_unknown :
      (new_entry : Option ℕ) (name : Text) (fd : ℤ)
      → find_ip_for_agent b.config name ≡ 0
      → on_agent_authenticated new_entry name fd b ≡ some (b, false)
  unfolding on_agent_authenticated
  on_agent_authenticated_unknown new_entry name fd h = ground arith

  -- `on_agent_authenticated` for a configured agent on a descriptor that no other agent has: it
  -- returns whether memory was given, the engine stays valid, and with memory the descriptor and
  -- the configured address lead to the agent. Rules, routes and internet device stay as they are.
  pub on_agent_authenticated_known :
      (new_entry : Option ℕ) (name : Text) (fd : ℤ)
      → find_ip_for_agent b.config name ≢ 0
      → ((p : ℕ) → new_entry ≡ some p → IsFresh name p b.registry)
      → OwnDescriptor name fd b
      → (b' : BlackBox) × (on_agent_authenticated new_entry name fd b
          ≡ some (b', is_some new_entry))
        × IsValid b'
        × (b'.config ≡ b.config)
        × (b'.routing ≡ b.routing)
        × (b'.tun_fd ≡ b.tun_fd)
        × ((p : ℕ)
            → new_entry ≡ some p
            → (find_by_fd fd b'.registry ≡ some p)
              × (find_by_ipv4 (find_ip_for_agent b.config name) b'.registry ≡ some p)
              × (deref p b'.registry
                  ≡ some (record {
                    name = name;
                    virtual_ipv4 = find_ip_for_agent b.config name;
                    fd = fd;
                  })))
  unfolding on_agent_authenticated
  on_agent_authenticated_known new_entry name fd h fresh own =
      let ip = find_ip_for_agent b.config name in
      let (q, done, sound, _, found) =
        register_agent-IsSound b.registry new_entry name ip fd v.sound fresh in
      (
        record b { registry = q },
        ground (arith, done),
        record {
          configured = v.configured;
          sound = sound;
          agrees =
              register_agent_keeps b.registry q new_entry new_entry name ip fd v.sound v.agrees
                (apart name fd own h) done;
          addressed = λ p x live.
              elim (register_agent_exact b.registry q new_entry new_entry name ip fd v.sound done p
                x live) [ inl e ↦ ground arith | inr old ↦ v.addressed p x old.0 ];
          routes = v.routes;
        },
        refl,
        refl,
        refl,
        λ p e. let f = found p e in (f.2, f.1, f.0),
      )

  farewell_returns : (fd : ℤ) → farewell fd b ≢ none
  unfolding farewell
  farewell_returns fd = elim (Option-cases (find_by_fd fd b.registry)) [
    | inl e ↦ ground arith
    | inr (p, e) ↦ ground (arith, find_by_fd-live b.registry fd p v.sound e)
  ]

  -- `on_agent_disconnected` never faults; afterwards the engine is valid and no agent has the
  -- descriptor, while every agent with another descriptor stays.
  pub on_agent_disconnected_lem :
      (fd : ℤ)
      → (b' : BlackBox) × (on_agent_disconnected fd b ≡ some b')
        × IsValid b'
        × ((x : AgentEntry) → Live b' x ↔ (Live b x × (x.fd ≢ fd)))
  unfolding on_agent_disconnected
  on_agent_disconnected_lem fd =
      let (q, done, sound) = apply-IsSound (unregisters_fd fd) b.registry v.sound tt in
      let gone : unregister_by_fd fd b.registry ≡ some q = unfold apply in done in
      let exact = unregister_by_fd_exact b.registry q fd v.sound v.agrees gone in
      (
        record b { registry = q },
        ground (arith, gone, farewell_returns fd),
        record {
          configured = v.configured;
          sound = sound;
          agrees = apply-Agrees (unregisters_fd fd) b.registry q v.sound v.agrees tt done;
          addressed = λ p x live. v.addressed p x ((exact p x).0 live).0;
          routes = v.routes;
        },
        λ x. (
          λ live. let old = (exact live.0 x).0 live.1 in ((live.0, old.0), old.1),
          λ live. (live.0.0, (exact live.0.0 x).1 (live.0.1, live.1)),
        ),
      )

-- `on_route_update` sets the route of its destination, or withdraws it if the descriptor is
-- negative, and leaves every other route; the engine stays valid.
pub on_route_update_lem :
    (b : BlackBox) (dest : ℕ) (fd : ℤ)
    → IsValid b
    → IsValid (on_route_update dest fd b)
      × ((k : ℕ)
          → lookup (on_route_update dest fd b).routing k
            ≡ (if dest == k then (if is_neg fd then minus_one else fd) else lookup b.routing k))
unfolding on_route_update
on_route_update_lem b dest fd v = elim (Bool-cases (is_neg fd)) [
  | inl n ↦ rw n (
    record {
      configured = v.configured;
      sound = v.sound;
      agrees = v.agrees;
      addressed = v.addressed;
      routes = remove_route-IsValid dest b.routing v.routes;
    },
    λ k. lookup-remove_route dest b.routing k,
  )
  | inr n ↦ rw n (
    record {
      configured = v.configured;
      sound = v.sound;
      agrees = v.agrees;
      addressed = v.addressed;
      routes = set_route-IsValid dest fd b.routing v.routes;
    },
    λ k. lookup-set_route dest fd b.routing k,
  )
]

-- `on_switch_disconnected` withdraws exactly the routes to that switch; the engine stays valid.
on_switch_disconnected_lem :
    (b : BlackBox) (fd : ℤ)
    → IsValid b
    → IsValid (on_switch_disconnected fd b)
      × ((k : ℕ)
          → lookup (on_switch_disconnected fd b).routing k
            ≡ (if lookup b.routing k == fd then minus_one else lookup b.routing k))
unfolding on_switch_disconnected
on_switch_disconnected_lem b fd v = (
  record {
    configured = v.configured;
    sound = v.sound;
    agrees = v.agrees;
    addressed = v.addressed;
    routes = remove_routes_for_switch-IsValid fd b.routing v.routes;
  },
  λ k. lookup-remove_routes_for_switch fd b.routing k v.routes,
)

-- Once a switch has disconnected, no packet of an agent is forwarded to it.
pub on_switch_disconnected_silent :
    (e : Endian) (bytes : List ℕ) (len : ℕ)
    → len ≤ length bytes
    → (b : BlackBox) (switch_fd source_fd : ℤ) (d : PacketDecision) → IsValid b
    → process e agent source_fd (some bytes) len (on_switch_disconnected switch_fd b) ≡ some d
    → d.action ≡ forward_switch
    → d.target_fd ≢ switch_fd
on_switch_disconnected_silent e bytes len there b switch_fd source_fd d v decided forwards same =
    let after = on_switch_disconnected_lem b switch_fd v in
    let f =
      (process_from_agent_lem e bytes len there (on_switch_disconnected switch_fd b) source_fd d
          after.0.sound decided).1
        (ground arith) in
    let to = f.forwards forwards in
    ground (
      arith,
      to,
      after.1 (header_of e bytes).dst_ip,
      int_eq.same_iff (lookup b.routing (header_of e bytes).dst_ip) switch_fd,
    )
