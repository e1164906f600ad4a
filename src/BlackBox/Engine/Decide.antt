-- ===== src/BlackBox/Engine/Decide.antt =====
-- What the engine decides about a packet.
use v_net.Base.Map.{find}
use v_net.BlackBox.Ipv4.{IPv4Header}
use v_net.BlackBox.AgentRegistry.{AgentEntry, deref, find_by_fd, find_by_ipv4}
use v_net.BlackBox.AgentRegistry.Sound.{IsSound, find_by_ipv4-live, find_by_fd-live}
use v_net.BlackBox.RoutingTable.{lookup}
use v_net.BlackBox.Config.{find_agent_for_ip, can_agents_communicate, can_reach_internet_ip}
use v_net.BlackBox.Engine.{
  ℕ, ℤ, SourceType, agent, switch, tun, deliver_local, forward_switch, forward_internet,
  request_route, drop, PacketDecision, BlackBox, route_to_destination, process_header,
}
use v_net.Base.{
  false, ◌⊎◌, is_neg, true, [], inr, arith, inl, Option-cases, nat_eq, none, some, ◌≡◌, ◌≢◌,
}

-- A registered agent.
abbrev pub Live : BlackBox → AgentEntry → Type 0
Live b x = (p : ℕ) × (find p b.registry.heap ≡ some x)

module _ (b : BlackBox) (s : IsSound b.registry) where
  deref_ipv4 :
      (ip p : ℕ)
      → find_by_ipv4 ip b.registry ≡ some p
      → (x : AgentEntry) × (deref p b.registry ≡ some x) × (x.virtual_ipv4 ≡ ip)
  deref_ipv4 ip p h = find_by_ipv4-live b.registry ip p s h

  deref_fd :
      (fd : ℤ) (p : ℕ)
      → find_by_fd fd b.registry ≡ some p
      → (x : AgentEntry) × (deref p b.registry ≡ some x) × (x.fd ≡ fd)
  deref_fd fd p h = find_by_fd-live b.registry fd p s h

  route_returns : (src dst : ℕ) → route_to_destination src dst b ≢ none
  unfolding route_to_destination
  route_returns src dst = elim (Option-cases (find_by_ipv4 dst b.registry)) [
    | inl e ↦ ground arith
    | inr (p, e) ↦ ground (arith, deref_ipv4 dst p e)
  ]

  pub process_header_returns :
      (t : SourceType) (fd : ℤ) (h : IPv4Header) → process_header t fd h b ≢ none
  unfolding process_header
  process_header_returns agent fd h = elim (Option-cases (find_by_fd fd b.registry)) [
    | inl e ↦ ground arith
    | inr (p, e) ↦
        let (x, live, has) = deref_fd fd p e in
        ground (arith, live, route_returns x.virtual_ipv4 h.dst_ip)
  ]
  process_header_returns switch fd h = elim (Option-cases (find_by_ipv4 h.dst_ip b.registry)) [
    | inl e ↦ ground arith
    | inr (p, e) ↦ ground (arith, deref_ipv4 h.dst_ip p e)
  ]
  process_header_returns tun fd h = elim (Option-cases (find_by_ipv4 h.dst_ip b.registry)) [
    | inl e ↦ ground arith
    | inr (p, e) ↦ ground (arith, deref_ipv4 h.dst_ip p e)
  ]

-- What a packet that an agent sent needs in order not to be dropped: its sender is the agent of
-- the descriptor, under its own address, and the rules let it go to its destination.
pub record MaySend (b : BlackBox) (fd : ℤ) (h : IPv4Header) : Type 0 where
  pub pointer : ℕ
  pub sender : AgentEntry
  pub connected : find_by_fd fd b.registry ≡ some pointer
  pub live : deref pointer b.registry ≡ some sender
  pub own_source : h.src_ip ≡ sender.virtual_ipv4
  pub permitted :
      ((find_agent_for_ip b.config h.dst_ip ≢ [])
        × (can_agents_communicate b.config h.src_ip h.dst_ip ≡ true))
      ⊎ ((find_agent_for_ip b.config h.dst_ip ≡ [])
          × (is_neg b.tun_fd ≡ false)
          × (can_reach_internet_ip b.config h.src_ip h.dst_ip ≡ true))

-- What the engine may do with such a packet, according to its destination.
pub record Forwards (b : BlackBox) (h : IPv4Header) (d : PacketDecision) : Type 0 where
  pub delivers :
      d.action ≡ deliver_local
      → (find_agent_for_ip b.config h.dst_ip ≢ [])
        × ((x : AgentEntry) × Live b x × (x.virtual_ipv4 ≡ h.dst_ip) × (d.target_fd ≡ x.fd))
  pub forwards :
      d.action ≡ forward_switch
      → (find_agent_for_ip b.config h.dst_ip ≢ [])
        × (find_by_ipv4 h.dst_ip b.registry ≡ none)
        × (is_neg d.target_fd ≡ false)
        × (d.target_fd ≡ lookup b.routing h.dst_ip)
  pub asks :
      d.action ≡ request_route
      → (find_agent_for_ip b.config h.dst_ip ≢ [])
        × (find_by_ipv4 h.dst_ip b.registry ≡ none)
        × (is_neg (lookup b.routing h.dst_ip) ≡ true)
        × (d.dest_ipv4 ≡ h.dst_ip)
  pub leaves :
      d.action ≡ forward_internet
      → (find_agent_for_ip b.config h.dst_ip ≡ []) × (d.target_fd ≡ b.tun_fd)

module _ (b : BlackBox) (s : IsSound b.registry) (fd : ℤ) (h : IPv4Header) (d : PacketDecision)
    (decided : process_header agent fd h b ≡ some d) where
  pub agent_MaySend : d.action ≢ drop → MaySend b fd h
  unfolding process_header
  agent_MaySend kept = elim (Option-cases (find_by_fd fd b.registry)) [
    | inl e ↦ absurd (ground arith)
    | inr (p, e) ↦
        let (x, live, has) = deref_fd b s fd p e in
        record {
          pointer = p;
          sender = x;
          connected = e;
          live = live;
          own_source = ground arith;
          permitted = ground arith;
        }
  ]

  -- How the destination of a permitted packet is chosen.
  pub agent_Forwards : Forwards b h d
  unfolding process_header
  agent_Forwards = elim (Option-cases (find_by_fd fd b.registry)) [
    | inl e ↦ ground arith
    | inr (p, e) ↦
        let (x, live, has) = deref_fd b s fd p e in
        elim (Option-cases (find_by_ipv4 h.dst_ip b.registry)) [
          | inl e' ↦ record {
            delivers = ground arith;
            forwards = ground arith;
            asks = ground arith;
            leaves = ground arith;
          }
          | inr (q, e') ↦
              let (y, live', has') = deref_ipv4 b s h.dst_ip q e' in
              record {
                delivers = λ k. (ground arith, (y, (q, live'), has', ground arith));
                forwards = ground arith;
                asks = ground arith;
                leaves = ground arith;
              }
        ]
  ]

  pub agent_keeps : MaySend b fd h → d.action ≢ drop
  unfolding process_header
  agent_keeps m = elim (Option-cases (find_by_ipv4 h.dst_ip b.registry)) [
    | inl e' ↦ ground arith
    | inr (q, e') ↦ ground (arith, deref_ipv4 b s h.dst_ip q e')
  ]
