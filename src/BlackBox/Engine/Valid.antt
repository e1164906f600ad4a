-- ===== src/BlackBox/Engine/Valid.antt =====
-- `BlackBox::process` on the bytes of a packet.
use v_net.Host.{Endian}
use v_net.BlackBox.Ipv4.{zero_header}
use v_net.BlackBox.Ipv4.Accept.{
  IsPacket, IsPacket-cases, header_of, ipv4_parse_accepts, ipv4_parse-Rejects,
}
use v_net.BlackBox.AgentRegistry.Sound.{IsSound}
use v_net.BlackBox.Engine.{
  can_reach_internet_ip, tun, find_by_ipv4, switch, ℕ, List, SourceType, agent, drop,
  malformed_packet, dropped, PacketDecision, BlackBox, process_header, process,
}
use v_net.BlackBox.Engine.Inbound.{DeliversLocally, switch_lem, tun_lem}
use v_net.BlackBox.Engine.Decide.{
  MaySend, Forwards, process_header_returns, agent_MaySend, agent_Forwards, agent_keeps,
}
use v_net.Base.{
  true, none, ◌∙◌, Option-cases, sym, inl, ◌↔◌, arith, inr, ◌≢◌, ◌≡◌, some, ℤ, length, ◌≤◌,
}

module _ (e : Endian) (bytes : List ℕ) (len : ℕ) (there : len ≤ length bytes) (b : BlackBox) where
  pub process-IsPacket :
      (t : SourceType) (fd : ℤ)
      → IsPacket bytes len
      → process e t fd (some bytes) len b ≡ process_header t fd (header_of e bytes) b
  unfolding process
  process-IsPacket t fd k = rw (ipv4_parse_accepts e bytes len there k zero_header)

  -- A packet that is not well formed is dropped as malformed, whatever its source.
  pub process_malformed :
      (t : SourceType) (fd : ℤ)
      → ¬ IsPacket bytes len
      → process e t fd (some bytes) len b ≡ some (dropped malformed_packet)
  unfolding process
  process_malformed t fd k = ground (arith, ipv4_parse-Rejects e bytes len there k zero_header)

  -- With a sound registry `process` decides on every packet from every source: it follows no
  -- dangling pointer and reads nothing past the packet.
  pub process_decides :
      (t : SourceType) (fd : ℤ)
      → IsSound b.registry
      → (d : PacketDecision) × (process e t fd (some bytes) len b ≡ some d)
  process_decides t fd s = elim (IsPacket-cases bytes len) [
    | inr k ↦ (dropped malformed_packet, process_malformed t fd k)
    | inl k ↦ elim (Option-cases (process_header t fd (header_of e bytes) b)) [
      | inl lost ↦ absurd (process_header_returns b s t fd (header_of e bytes) lost)
      | inr (d, done) ↦ (d, process-IsPacket t fd k ∙ done)
    ]
  ]

  -- From what is decided about a well formed packet to what is decided about any packet.
  lift :
      {P Q : Type 0} (t : SourceType) (fd : ℤ) (d : PacketDecision)
      → process e t fd (some bytes) len b ≡ some d
      → (process_header t fd (header_of e bytes) b ≡ some d
          → ((d.action ≢ drop) ↔ P) × (d.action ≢ drop → Q))
      → ((d.action ≢ drop) ↔ (IsPacket bytes len × P)) × (d.action ≢ drop → Q)
  lift t fd d done on_header = elim (IsPacket-cases bytes len) [
    | inr k ↦
        let malformed = process_malformed t fd k in
        let dropped' : d.action ≡ drop = ground arith in
        ((λ kept. absurd (kept dropped'), λ m. absurd (k m.0)), λ kept. absurd (kept dropped'))
    | inl k ↦
        let r = on_header (sym (process-IsPacket t fd k) ∙ done) in
        ((λ kept. (k, r.0.0 kept), λ m. r.0.1 m.1), r.1)
  ]

  -- A packet from an agent is let through exactly if it is well formed, the descriptor is that of
  -- a registered agent whose address is the packet's source, and either its destination is a
  -- configured agent that the rules let it talk to, or it is no configured agent, there is an
  -- internet device and the rules let it reach that host. Then it goes to the live local agent of
  -- that address, to the switch that the routing table names, to the conductor as a request for a
  -- route, or to the internet device.
  pub process_from_agent_lem :
      (fd : ℤ) (d : PacketDecision)
      → IsSound b.registry
      → process e agent fd (some bytes) len b ≡ some d
      → ((d.action ≢ drop) ↔ (IsPacket bytes len × MaySend b fd (header_of e bytes)))
        × (d.action ≢ drop → Forwards b (header_of e bytes) d)
  process_from_agent_lem fd d s done = lift agent fd d done λ decided. (
    (
      agent_MaySend b s fd (header_of e bytes) d decided,
      agent_keeps b s fd (header_of e bytes) d decided,
    ),
    λ kept. agent_Forwards b s fd (header_of e bytes) d decided,
  )

  -- A packet from a peer switch is let through exactly if it is well formed and a local agent is
  -- registered under its destination address; then it goes to that live agent.
  pub process_from_switch_lem :
      (fd : ℤ) (d : PacketDecision)
      → IsSound b.registry
      → process e switch fd (some bytes) len b ≡ some d
      → ((d.action ≢ drop)
          ↔ (IsPacket bytes len × (find_by_ipv4 (header_of e bytes).dst_ip b.registry ≢ none)))
        × (d.action ≢ drop → DeliversLocally b (header_of e bytes) d)
  process_from_switch_lem fd d s done =
      lift switch fd d done (switch_lem b s fd (header_of e bytes) d)

  -- A packet from the internet device is let through exactly if it is well formed, a local agent
  -- is registered under its destination address, and the rules let that agent reach the host that
  -- the packet comes from; then it goes to that live agent.
  pub process_from_tun_lem :
      (fd : ℤ) (d : PacketDecision)
      → IsSound b.registry
      → process e tun fd (some bytes) len b ≡ some d
      → ((d.action ≢ drop) ↔ (
          IsPacket bytes len
          × ((find_by_ipv4 (header_of e bytes).dst_ip b.registry ≢ none)
              × (can_reach_internet_ip b.config
                    (header_of e bytes).dst_ip
                    (header_of e bytes).src_ip
                  ≡ true))))
        × (d.action ≢ drop → DeliversLocally b (header_of e bytes) d)
  process_from_tun_lem fd d s done = lift tun fd d done (tun_lem b s fd (header_of e bytes) d)
