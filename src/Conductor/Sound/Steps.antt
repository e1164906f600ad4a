-- ===== src/Conductor/Sound/Steps.antt =====
-- Every step of the conductor of src/conductor/setup.cpp keeps its pointers live.
use v_net.Base.{
  ℕ, ℤ, Bool, true, none, some, List, [], ◌∷◌, ◌++◌, ◌≡◌, ◌≢◌, inl, inr, refl, ◌∙◌, arith, nat_eq,
  Bool-cases, Option-cases, is_neg, not, leb, ◌&&◌, ◌-◌,
}
use v_net.Base.Map.{insert, erase}
use v_net.Base.Pointers.{member, member-remove}
use v_net.Protocol.Mip.{PacketAgentMip}
use v_net.Conductor.{
  ConnInfo, ConductorState, Call, Chances, Role, unknown, switch_conn, agent_conn, queue_close,
  queue_send_heartbeat, heartbeat_interval, accept_client, on_agent_mip, on_close, forget,
  remove_switch, remove_agent, try_hb, try_hbs, send_heartbeats,
}
use v_net.Conductor.Dump.{AreLive, write_dump-AreLive}
use v_net.Base.Heap.{field_at}
use v_net.Conductor.Pick.{pick_switch-member}
use v_net.Conductor.Run.{
  Event, accepts, switch_mips, agent_mips, agent_mrps, closes, ticks, dumps, turn, role_at,
}
use v_net.Conductor.Sound.{
  IsSound, IsFreeFor, IsAdmissible, role_at-insert, role_at-erase, role_at-find,
  IsSound-HasLiveSwitches, insert-IsSound, free-find, switch_mip-IsSound, agent_mrp-IsSound,
  assign-IsSound,
}

agent_mip-IsSound :
    (c : Chances) (p : ℕ) (fd : ℤ) (pkt : PacketAgentMip) (s : ConductorState)
    → IsSound s
    → IsFreeFor agent_conn p s
    → (s' : ConductorState) × (calls : List Call) × (on_agent_mip c p fd pkt s ≡ some (s', calls))
      × IsSound s'
unfolding on_agent_mip IsSound
agent_mip-IsSound c p fd pkt s sound free =
    let (info, found) = free-find agent_conn p s free in
    let known : ConnInfo = record info {
      role = agent_conn;
      name = pkt.name;
      auth_key = pkt.auth_key;
      network = pkt.network;
      fd = fd;
      connected_at_ms = c.now_ms;
    } in
    let s1 : ConductorState = record s { conns = insert p known s.conns } in
    let sound1 = insert-IsSound agent_conn p known s sound free (ground arith) refl in
    let role : role_at p s1.conns ≡ some agent_conn =
      ground (arith, role_at-insert p p known s.conns) in
    let (r, k, picked, listed) =
      pick_switch-member pkt.network s1 (IsSound-HasLiveSwitches s1 sound1) in
    let s2 : ConductorState = record s1 { rr_index = k } in
    elim (Option-cases r) [
      | inl nobody ↦
          (s2, queue_close fd ∷ [], rw (found, picked, nobody) refl, unfold IsSound in sound1)
      | inr (q, chosen) ↦
          let (s3, calls, assigned, sound3) =
            assign-IsSound c p fd pkt.name q s2 (unfold IsSound in sound1) role (listed q chosen) in
          (s3, calls, rw (found, picked, chosen) assigned, unfold IsSound in sound3)
    ]

accept-IsSound :
    (put : Bool) (p : ℕ) (fd : ℤ) (now : ℕ) (s : ConductorState)
    → IsSound s
    → role_at p s.conns ≡ none
    → IsSound (accept_client put p fd now s)
unfolding accept_client IsSound
accept-IsSound put p fd now s sound fresh =
    let info : ConnInfo = record {
      role = unknown;
      name = [];
      auth_key = [];
      network = [];
      sw_port = 0;
      sw_ipv4 = 0;
      fd = fd;
      last_hb_sent = now;
      connected_at_ms = 0;
    } in
    (
      (λ q m. ground (
        arith,
        sound.0 q,
        role_at-insert p q info s.conns,
        role_at-erase p q (insert p info s.conns),
      )),
      (λ q m. ground (
        arith,
        sound.1 q,
        role_at-insert p q info s.conns,
        role_at-erase p q (insert p info s.conns),
      )),
    )

-- What `onClose` forgets leaves no trace of the connection, if its role is the one it is listed
-- under.
forget-IsSound :
    (role : Role) (p : ℕ) (info : ConnInfo) (s : ConductorState)
    → IsSound s
    → role_at p s.conns ≡ some role
    → IsSound (record (forget role p info s) { conns = erase p s.conns })
unfolding forget remove_switch remove_agent IsSound
forget-IsSound switch_conn p info s sound live = (
  (λ q m. ground (arith, member-remove q p s.switches, role_at-erase p q s.conns, sound.0 q)),
  (λ q m. ground (arith, live, role_at-erase p q s.conns, sound.1 q)),
)
forget-IsSound agent_conn p info s sound live = (
  (λ q m. ground (arith, live, role_at-erase p q s.conns, sound.0 q)),
  (λ q m. ground (arith, member-remove q p s.agents, role_at-erase p q s.conns, sound.1 q)),
)
forget-IsSound unknown p info s sound live = (
  (λ q m. ground (arith, live, role_at-erase p q s.conns, sound.0 q)),
  (λ q m. ground (arith, live, role_at-erase p q s.conns, sound.1 q)),
)

forget-conns :
    (role : Role) (p : ℕ) (info : ConnInfo) (s : ConductorState)
    → (forget role p info s).conns ≡ s.conns
unfolding forget remove_switch remove_agent
forget-conns switch_conn p info s = refl
forget-conns agent_conn p info s = refl
forget-conns unknown p info s = refl

close-IsSound :
    (p : ℕ) (s : ConductorState)
    → IsSound s
    → role_at p s.conns ≢ none
    → (s' : ConductorState) × (on_close (some p) s ≡ some s') × IsSound s'
unfolding on_close
close-IsSound p s sound live =
    let (info, found, role) = role_at-find p s.conns live in
    (
      record (forget info.role p info s) { conns = erase p s.conns },
      ground (arith, found, forget-conns info.role p info s),
      forget-IsSound info.role p info s sound role,
    )

-- What a heartbeat leaves alone.
abbrev Same : ConductorState → ConductorState → Type 0
Same s s' =
    ((q : ℕ) → role_at q s'.conns ≡ role_at q s.conns)
    × (s'.switches ≡ s.switches)
    × (s'.agents ≡ s.agents)

Same-IsSound : (s s' : ConductorState) → Same s s' → IsSound s → IsSound s'
unfolding IsSound
Same-IsSound s s' same sound =
    ((λ q m. ground (arith, same.0 q, sound.0 q)), (λ q m. ground (arith, same.0 q, sound.1 q)))

try_hb-Same :
    (now p : ℕ) (s : ConductorState)
    → role_at p s.conns ≢ none
    → (s' : ConductorState) × (sent : List Call) × (try_hb now p s ≡ some (s', sent)) × Same s s'
unfolding try_hb
try_hb-Same now p s live =
    let (info, found, role) = role_at-find p s.conns live in
    elim (Bool-cases (not (is_neg info.fd) && leb heartbeat_interval (now - info.last_hb_sent))) [
      | inl e ↦
          let beaten : ConnInfo = record info { last_hb_sent = now } in
          (
            record s { conns = insert p beaten s.conns },
            queue_send_heartbeat info.fd ∷ [],
            ground arith,
            ((λ q. ground (arith, role, role_at-insert p q beaten s.conns)), refl, refl),
          )
      | inr e ↦ (s, [], ground arith, ((λ q. refl), refl, refl))
    ]

try_hbs-Same :
    (now : ℕ) (ps : List ℕ) (s : ConductorState)
    → ((p : ℕ) → member p ps ≡ true → role_at p s.conns ≢ none)
    → (s' : ConductorState) × (sent : List Call) × (try_hbs now ps s ≡ some (s', sent)) × Same s s'
unfolding try_hbs member
try_hbs-Same now [] s live = (s, [], refl, ((λ q. refl), refl, refl))
try_hbs-Same now (p ∷ ps) s live =
    let (s', sent, first, same) = try_hb-Same now p s (live p (ground arith)) in
    let (s'', more, others, same') =
      try_hbs-Same now ps s' (λ q m e. live q (ground arith) (ground (arith, same.0 q))) in
    (
      s'',
      sent ++ more,
      ground arith,
      ((λ q. same'.0 q ∙ same.0 q), same'.1 ∙ same.1, same'.2 ∙ same.2),
    )

-- The members of both lists are live.
listed-live :
    (s : ConductorState)
    → IsSound s
    → ((p : ℕ) → member p s.switches ≡ true → role_at p s.conns ≢ none)
      × ((p : ℕ) → member p s.agents ≡ true → role_at p s.conns ≢ none)
unfolding IsSound
listed-live s sound = ((λ p m e. ground (arith, sound.0 p)), (λ p m e. ground (arith, sound.1 p)))

beats-IsSound :
    (now : ℕ) (s : ConductorState)
    → IsSound s
    → (s' : ConductorState) × (calls : List Call) × (send_heartbeats now s ≡ some (s', calls))
      × IsSound s'
unfolding send_heartbeats
beats-IsSound now s sound =
    let (s', sent, first, same) = try_hbs-Same now s.switches s (listed-live s sound).0 in
    let sound' = Same-IsSound s s' same sound in
    let (s'', more, others, same') = try_hbs-Same now s'.agents s' (listed-live s' sound').1 in
    (s'', sent ++ more, ground (arith, first, others), Same-IsSound s' s'' same' sound')

-- The pointers of both lists, as the state file needs them.
listed-AreLive :
    (s : ConductorState) → IsSound s → AreLive s.switches s.conns × AreLive s.agents s.conns
unfolding IsSound role_at field_at
listed-AreLive s sound = (
  (λ p m gone. absurd (ground (arith, sound.0 p m, gone))),
  (λ p m gone. absurd (ground (arith, sound.1 p m, gone))),
)

-- From a sound state every admissible step is taken without a use of a pointer that is not live,
-- and leaves a sound state.
pub turn-IsSound :
    (e : Event) (s : ConductorState)
    → IsSound s
    → IsAdmissible e s
    → (s' : ConductorState) × (calls : List Call) × (turn e s ≡ some (s', calls)) × IsSound s'
unfolding turn IsAdmissible on_close
turn-IsSound (accepts put p fd now) s sound fresh =
    (accept_client put p fd now s, [], refl, accept-IsSound put p fd now s sound fresh)
turn-IsSound (switch_mips p fd pkt now_ms peer) s sound free =
    let (s', e, sound') = switch_mip-IsSound p fd pkt now_ms peer s sound free in
    (s', [], rw e refl, sound')
turn-IsSound (agent_mips c p fd pkt) s sound free = agent_mip-IsSound c p fd pkt s sound free
turn-IsSound (agent_mrps p fd pkt now_ms) s sound free =
    let (s', e, sound') = agent_mrp-IsSound p fd pkt now_ms s sound free in
    (s', [], rw e refl, sound')
turn-IsSound (closes none) s sound ok = (s, [], refl, sound)
turn-IsSound (closes (some p)) s sound live =
    let (s', e, sound') = close-IsSound p s sound live in (s', [], ground (arith, e), sound')
turn-IsSound (ticks now) s sound ok = beats-IsSound now s sound
turn-IsSound (dumps ipv4_to_string now_ms) s sound ok =
    let (switches, agents) = listed-AreLive s sound in
    let (file, written) = write_dump-AreLive ipv4_to_string now_ms s switches agents in
    (s, [], rw written refl, sound)
