-- ===== src/Conductor/Faults.antt =====
-- A connection that speaks as a switch and then as an agent, in src/conductor/setup.cpp.
use v_net.Base.{
  ◌⊎◌, ℕ, ℤ, true, Option, none, some, List, [], ◌∷◌, ◌++◌, ◌≡◌, ◌≢◌, inl, inr, refl, arith, nat_eq,
  ◌==◌, Bool-cases, Option-cases, is_neg, not, leb, ◌-◌, ◌&&◌, ◌%◌, ◌^◌,
}
use v_net.Base.Map.{find-insert_self, find-erase_self, find, insert, erase, find-insert}
use v_net.Base.Pointers.{member, remove, member-append}
use v_net.Protocol.Mip.{PacketSwitchMip, PacketAgentMrp}
use v_net.Conductor.{
  ConnInfo, ConductorState, Call, switch_conn, agent_conn, on_switch_mip, on_agent_mrp, on_close,
  forget, remove_agent, try_hb, try_hbs, send_heartbeats, heartbeat_interval, queue_send_heartbeat,
}
use v_net.Conductor.Run.{switch_mips, agent_mrps, closes, turn, turns}

-- A heartbeat for an object leaves the dead ones dead.
try_hb-none :
    (now p q : ℕ) (s : ConductorState)
    → find q s.conns ≡ none
    → (try_hb now p s ≡ none)
      ⊎ ((s' : ConductorState) × (sent : List Call) × (try_hb now p s ≡ some (s', sent))
          × (find q s'.conns ≡ none))
unfolding try_hb
try_hb-none now p q s dead = elim (Option-cases (find p s.conns)) [
  | inl gone ↦ inl (rw gone refl)
  | inr (info, found) ↦
      elim (Bool-cases (not (is_neg info.fd) && leb heartbeat_interval (now - info.last_hb_sent))) [
        | inl e ↦
            let beaten : ConnInfo = record info { last_hb_sent = now } in
            inr (
              record s { conns = insert p beaten s.conns },
              queue_send_heartbeat info.fd ∷ [],
              ground arith,
              ground (arith, dead, found, find-insert p q beaten s.conns),
            )
        | inr e ↦ inr (s, [], ground arith, dead)
      ]
]

-- The heartbeats fault at a dead object.
try_hbs-none :
    (now q : ℕ) (ps : List ℕ) (s : ConductorState)
    → member q ps ≡ true
    → find q s.conns ≡ none
    → try_hbs now ps s ≡ none
unfolding try_hbs member
try_hbs-none now q [] s m dead = absurd (ground arith)
try_hbs-none now q (p ∷ ps) s m dead = elim (Bool-cases (p == q)) [
  | inl same ↦
      let here : find p s.conns ≡ none = ground (arith, same, dead) in unfold try_hb in rw here refl
  | inr other ↦ elim (try_hb-none now p q s dead) [
    | inl fault ↦ rw fault refl
    | inr (s', sent, done, dead') ↦
        let rest = try_hbs-none now q ps s' (ground (arith, m, other)) dead' in rw (done, rest) refl
  ]
]

-- What the three handlers leave at `p`, and of the switches.
module _ (p : ℕ) (fd : ℤ) (now_ms : ℕ) (s : ConductorState) (info : ConnInfo)
    (found : find p s.conns ≡ some info) where
  switch_mip_lem :
      (pkt : PacketSwitchMip) (peer : Option ℕ)
      → (s' : ConductorState) × (info' : ConnInfo) × (on_switch_mip p fd pkt now_ms peer s
          ≡ some s')
        × (s'.switches ≡ s.switches ++ p ∷ [])
        × (find p s'.conns ≡ some info')
  unfolding on_switch_mip
  switch_mip_lem pkt peer =
      let known : ConnInfo = record info {
        role = switch_conn;
        name = pkt.name;
        auth_key = pkt.auth_key;
        network = pkt.network;
        sw_port = pkt.port % 2 ^ 16;
        fd = fd;
        connected_at_ms = now_ms;
        sw_ipv4 = elim peer [ none ↦ info.sw_ipv4 | some ipv4 ↦ ipv4 ];
      } in
      (
        record s { conns = insert p known s.conns; switches = s.switches ++ p ∷ [] },
        known,
        rw found refl,
        refl,
        find-insert_self p known s.conns,
      )

  agent_mrp_lem :
      (pkt : PacketAgentMrp)
      → (s' : ConductorState) × (info' : ConnInfo) × (on_agent_mrp p fd pkt now_ms s ≡ some s')
        × (s'.switches ≡ s.switches)
        × (find p s'.conns ≡ some info')
        × (info'.role ≡ agent_conn)
  unfolding on_agent_mrp
  agent_mrp_lem pkt =
      let known : ConnInfo = record info {
        role = agent_conn;
        name = pkt.name;
        auth_key = pkt.auth_key;
        fd = fd;
        connected_at_ms = now_ms;
      } in
      (
        record s { conns = insert p known s.conns; agents = s.agents ++ p ∷ [] },
        known,
        rw found refl,
        refl,
        find-insert_self p known s.conns,
        refl,
      )

  close_lem :
      info.role ≡ agent_conn
      → (s' : ConductorState) × (on_close (some p) s ≡ some s')
        × (s'.switches ≡ s.switches)
        × (find p s'.conns ≡ none)
  unfolding on_close forget remove_agent
  close_lem agent = (
    record s { agents = remove p s.agents; conns = erase p s.conns },
    rw (found, agent) refl,
    refl,
    find-erase_self p s.conns,
  )

-- A live connection that registers as a switch, then as a returning agent, and closes, in any state
-- of the conductor, leaves its pointer among the switches after its object is deleted: the next
-- round of heartbeats uses it, which is a fault.
pub send_heartbeats-two_roles :
    (p : ℕ) (fd : ℤ) (as_switch : PacketSwitchMip) (as_agent : PacketAgentMrp) (now_ms now : ℕ)
    (peer : Option ℕ) (s : ConductorState)
    → find p s.conns ≢ none
    → (s' : ConductorState) × (turns
          (switch_mips p fd as_switch now_ms peer
            ∷ agent_mrps p fd as_agent now_ms
            ∷ closes (some p)
            ∷ [])
          s
        ≡ some (s', []))
      × (send_heartbeats now s' ≡ none)
unfolding turns turn send_heartbeats
send_heartbeats-two_roles p fd as_switch as_agent now_ms now peer s live =
    elim (Option-cases (find p s.conns)) [
      | inl gone ↦ absurd (live gone)
      | inr (info, found) ↦
          let (s1, i1, e1, switches1, found1) =
            switch_mip_lem p fd now_ms s info found as_switch peer in
          let (s2, i2, e2, switches2, found2, agent) =
            agent_mrp_lem p fd now_ms s1 i1 found1 as_agent in
          let (s3, e3, switches3, dead) = close_lem p fd now_ms s2 i2 found2 agent in
          let listed : member p s3.switches ≡ true =
            ground (arith, switches1, switches2, switches3, member-append p p s.switches) in
          let fault = try_hbs-none now p s3.switches s3 listed dead in
          (s3, rw (e1, e2, e3) refl, rw fault refl)
    ]
