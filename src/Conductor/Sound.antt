-- ===== src/Conductor/Sound.antt =====
-- The pointers that the conductor of src/conductor/setup.cpp keeps are live.
pub mod Steps
use v_net.Base.{
  inr, inl, Bool-cases, ◌^◌, ◌%◌, Option, refl, Text, ℤ, ℕ, true, none, some, List, [], ◌∷◌, ◌++◌,
  ◌≡◌, ◌≢◌, ◌⊎◌, arith, nat_eq, ◌==◌, if◌then◌else◌,
}
use v_net.Base.Map.{find, insert, erase}
use v_net.Base.Heap.{field_at, field_at-insert, field_at-erase, field_at-find}
use v_net.Base.Pointers.{member, member-append}
use v_net.Conductor.{
  sends, is_success, tell_agent, notify_switch, push_agent, Call, PacketAgentMrp, PacketSwitchMip,
  Chances, assign_switch, on_agent_mrp, on_switch_mip, ConnInfo, ConductorState, Role, unknown,
  switch_conn, agent_conn,
}
use v_net.Conductor.Pick.{HasLiveSwitches}
use v_net.Conductor.Run.{
  Event, accepts, switch_mips, agent_mips, agent_mrps, closes, ticks, dumps, role_at,
}

-- Every switch and every agent is a live connection of its role.
unfoldable pub IsSound : ConductorState → Type 0
IsSound s =
    ((p : ℕ) → member p s.switches ≡ true → role_at p s.conns ≡ some switch_conn)
    × ((p : ℕ) → member p s.agents ≡ true → role_at p s.conns ≡ some agent_conn)

-- The connection at `p` is live and has not identified itself in the other role.
unfoldable pub IsFreeFor : Role → ℕ → ConductorState → Type 0
IsFreeFor role p s = (role_at p s.conns ≡ some unknown) ⊎ (role_at p s.conns ≡ some role)

-- A handler is given a live pointer, `new` a fresh one, and each connection keeps to one role.
unfoldable pub IsAdmissible : Event → ConductorState → Type 0
IsAdmissible (accepts put p fd now) s = role_at p s.conns ≡ none
IsAdmissible (switch_mips p fd pkt now_ms peer) s = IsFreeFor switch_conn p s
IsAdmissible (agent_mips c p fd pkt) s = IsFreeFor agent_conn p s
IsAdmissible (agent_mrps p fd pkt now_ms) s = IsFreeFor agent_conn p s
IsAdmissible (closes none) s = Unit
IsAdmissible (closes (some p)) s = role_at p s.conns ≢ none
IsAdmissible (ticks now) s = Unit
IsAdmissible (dumps ipv4_to_string now_ms) s = Unit

role_at-insert :
    (p q : ℕ) (info : ConnInfo) (m : List (ℕ × ConnInfo))
    → role_at q (insert p info m) ≡ (if p == q then some info.role else role_at q m)
unfolding role_at
role_at-insert p q info m = field_at-insert (λ info. info.role) p q info m

role_at-erase :
    (p q : ℕ) (m : List (ℕ × ConnInfo))
    → role_at q (erase p m) ≡ (if p == q then none else role_at q m)
unfolding role_at
role_at-erase p q m = field_at-erase (λ info. info.role) p q m

role_at-find :
    (p : ℕ) (m : List (ℕ × ConnInfo))
    → role_at p m ≢ none
    → (info : ConnInfo) × (find p m ≡ some info) × (role_at p m ≡ some info.role)
unfolding role_at
role_at-find p m live = field_at-find (λ info. info.role) p m live

IsSound-HasLiveSwitches : (s : ConductorState) → IsSound s → HasLiveSwitches s
unfolding IsSound HasLiveSwitches role_at field_at
IsSound-HasLiveSwitches s sound p m gone = absurd (ground (arith, sound.0 p m, gone))

-- A connection that gets a role it is free for disturbs no other.
insert-IsSound :
    (role : Role) (p : ℕ) (info : ConnInfo) (s : ConductorState)
    → IsSound s
    → IsFreeFor role p s
    → role ≢ unknown
    → info.role ≡ role
    → IsSound (record s { conns = insert p info s.conns })
unfolding IsSound IsFreeFor
insert-IsSound role p info s sound free known same = (
  (λ q m. ground (arith, role_at-insert p q info s.conns, sound.0 q m)),
  (λ q m. ground (arith, role_at-insert p q info s.conns, sound.1 q m)),
)

more_agents-IsSound :
    (p : ℕ) (s : ConductorState)
    → IsSound s
    → role_at p s.conns ≡ some agent_conn
    → IsSound (record s { agents = s.agents ++ p ∷ [] })
unfolding IsSound
more_agents-IsSound p s sound role =
    (sound.0, (λ q m. ground (arith, member-append q p s.agents, sound.1 q)))

more_switches-IsSound :
    (p : ℕ) (s : ConductorState)
    → IsSound s
    → role_at p s.conns ≡ some switch_conn
    → IsSound (record s { switches = s.switches ++ p ∷ [] })
unfolding IsSound
more_switches-IsSound p s sound role =
    ((λ q m. ground (arith, member-append q p s.switches, sound.0 q)), sound.1)

-- A live connection that is free for a role.
free-find :
    (role : Role) (p : ℕ) (s : ConductorState)
    → IsFreeFor role p s
    → (info : ConnInfo) × (find p s.conns ≡ some info)
unfolding IsFreeFor
free-find role p s free =
    let (info, found, same) = role_at-find p s.conns (λ gone. ground (arith, free)) in (info, found)

switch_mip-IsSound :
    (p : ℕ) (fd : ℤ) (pkt : PacketSwitchMip) (now_ms : ℕ) (peer : Option ℕ) (s : ConductorState)
    → IsSound s
    → IsFreeFor switch_conn p s
    → (s' : ConductorState) × (on_switch_mip p fd pkt now_ms peer s ≡ some s') × IsSound s'
unfolding on_switch_mip
switch_mip-IsSound p fd pkt now_ms peer s sound free =
    let (info, found) = free-find switch_conn p s free in
    let known : ConnInfo = record info {
      role = switch_conn;
      name = pkt.name;
      auth_key = pkt.auth_key;
      network = pkt.network;
      sw_port = pkt.port % 2 ^ 16;
      fd = fd;
      connected_at_ms = now_ms;
      sw_ipv4 = elim peer [ none ↦ info.sw_ipv4 | some ipv4 ↦ ipv4 ];
    } in
    let sound' = insert-IsSound switch_conn p known s sound free (ground arith) refl in
    let s' : ConductorState = record s { conns = insert p known s.conns } in
    let role : role_at p s'.conns ≡ some switch_conn =
      ground (arith, role_at-insert p p known s.conns) in
    (
      record s' { switches = s.switches ++ p ∷ [] },
      ground (arith, found),
      more_switches-IsSound p s' sound' role,
    )

agent_mrp-IsSound :
    (p : ℕ) (fd : ℤ) (pkt : PacketAgentMrp) (now_ms : ℕ) (s : ConductorState)
    → IsSound s
    → IsFreeFor agent_conn p s
    → (s' : ConductorState) × (on_agent_mrp p fd pkt now_ms s ≡ some s') × IsSound s'
unfolding on_agent_mrp
agent_mrp-IsSound p fd pkt now_ms s sound free =
    let (info, found) = free-find agent_conn p s free in
    let known : ConnInfo = record info {
      role = agent_conn;
      name = pkt.name;
      auth_key = pkt.auth_key;
      fd = fd;
      connected_at_ms = now_ms;
    } in
    let sound' = insert-IsSound agent_conn p known s sound free (ground arith) refl in
    let s' : ConductorState = record s { conns = insert p known s.conns } in
    let role : role_at p s'.conns ≡ some agent_conn =
      ground (arith, role_at-insert p p known s.conns) in
    (
      record s' { agents = s.agents ++ p ∷ [] },
      ground (arith, found),
      more_agents-IsSound p s' sound' role,
    )

assign-IsSound :
    (c : Chances) (p : ℕ) (fd : ℤ) (name : Text) (q : ℕ) (s : ConductorState)
    → IsSound s
    → role_at p s.conns ≡ some agent_conn
    → member q s.switches ≡ true
    → (s' : ConductorState) × (calls : List Call) × (assign_switch c p fd name q s
        ≡ some (s', calls))
      × IsSound s'
unfolding assign_switch IsSound
assign-IsSound c p fd name q s sound role listed =
    let (sw, found, same) = role_at-find q s.conns (λ gone. ground (arith, sound.0 q listed)) in
    elim (Bool-cases (is_success (tell_agent c sw).ending)) [
      | inl told ↦ elim (Bool-cases (is_success (notify_switch c name).ending)) [
        | inl noticed ↦ (
          push_agent c p name sw s,
          sends fd (tell_agent c sw).wire ∷ sends sw.fd (notify_switch c name).wire ∷ [],
          rw (found, told, noticed) refl,
          unfold IsSound in more_agents-IsSound p s sound role,
        )
        | inr unnoticed ↦ (
          s,
          sends fd (tell_agent c sw).wire ∷ sends sw.fd (notify_switch c name).wire ∷ [],
          rw (found, told, unnoticed) refl,
          sound,
        )
      ]
      | inr untold ↦ (s, sends fd (tell_agent c sw).wire ∷ [], rw (found, untold) refl, sound)
    ]
