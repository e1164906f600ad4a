-- ===== src/BlackBox/Engine/Inbound.antt =====
-- Packets that reach the engine from a peer switch or from the internet device.
use v_net.BlackBox.Ipv4.{IPv4Header}
use v_net.BlackBox.AgentRegistry.{AgentEntry, deref, find_by_ipv4}
use v_net.BlackBox.AgentRegistry.Sound.{IsSound, find_by_ipv4-live}
use v_net.BlackBox.Config.{can_reach_internet_ip}
use v_net.BlackBox.Engine.{
  ℤ, switch, tun, deliver_local, drop, sent, PacketDecision, BlackBox, process_header,
}
use v_net.BlackBox.Engine.Decide.{Live}
use v_net.Base.{
  Bool-cases, inr, Option-cases, false, inl, arith, true, ℕ, ◌⊎◌, none, ◌↔◌, some, ◌≢◌, ◌≡◌,
}

-- The packet goes to the live local agent that has its destination address.
abbrev pub DeliversLocally : BlackBox → IPv4Header → PacketDecision → Type 0
DeliversLocally b h d =
    (x : AgentEntry) × Live b x × (x.virtual_ipv4 ≡ h.dst_ip) × (d ≡ sent deliver_local x.fd)

module _ (b : BlackBox) (s : IsSound b.registry) (fd : ℤ) (h : IPv4Header)
    (d : PacketDecision) where
  near_entry :
      find_by_ipv4 h.dst_ip b.registry ≢ none
      → (p : ℕ) × (x : AgentEntry) × (find_by_ipv4 h.dst_ip b.registry ≡ some p)
        × (deref p b.registry ≡ some x)
        × (x.virtual_ipv4 ≡ h.dst_ip)
  near_entry near = elim (Option-cases (find_by_ipv4 h.dst_ip b.registry)) [
    | inl far ↦ absurd (near far)
    | inr (p, found) ↦
        let (x, live, has) = find_by_ipv4-live b.registry h.dst_ip p s found in
        (p, x, found, live, has)
  ]

  switch_drops :
      process_header switch fd h b ≡ some d
      → find_by_ipv4 h.dst_ip b.registry ≡ none
      → d.action ≡ drop
  unfolding process_header
  switch_drops decided far = ground arith

  switch_delivers :
      process_header switch fd h b ≡ some d
      → find_by_ipv4 h.dst_ip b.registry ≢ none
      → DeliversLocally b h d
  unfolding process_header
  switch_delivers decided near =
      let (p, x, found, live, has) = near_entry near in (x, (p, live), has, ground arith)

  tun_drops :
      process_header tun fd h b ≡ some d
      → (find_by_ipv4 h.dst_ip b.registry ≡ none)
        ⊎ (can_reach_internet_ip b.config h.dst_ip h.src_ip ≡ false)
      → d.action ≡ drop
  unfolding process_header
  tun_drops decided (inl far) = ground arith
  tun_drops decided (inr shut) = elim (Option-cases (find_by_ipv4 h.dst_ip b.registry)) [
    | inl far ↦ ground arith
    | inr (p, found) ↦ ground arith
  ]

  tun_delivers :
      process_header tun fd h b ≡ some d
      → find_by_ipv4 h.dst_ip b.registry ≢ none
      → can_reach_internet_ip b.config h.dst_ip h.src_ip ≡ true
      → DeliversLocally b h d
  unfolding process_header
  tun_delivers decided near may =
      let (p, x, found, live, has) = near_entry near in (x, (p, live), has, ground arith)

  -- A well formed packet from a peer switch is let through exactly if a local agent has its
  -- destination address, and then goes to that agent.
  pub switch_lem :
      process_header switch fd h b ≡ some d
      → ((d.action ≢ drop) ↔ (find_by_ipv4 h.dst_ip b.registry ≢ none))
        × (d.action ≢ drop → DeliversLocally b h d)
  switch_lem decided =
      let near : d.action ≢ drop → find_by_ipv4 h.dst_ip b.registry ≢ none =
        λ kept far. kept (switch_drops decided far) in
      (
        (near, λ there. let found = switch_delivers decided there in ground (arith, found)),
        λ kept. switch_delivers decided (near kept),
      )

  pub tun_lem :
      process_header tun fd h b ≡ some d
      → ((d.action ≢ drop) ↔ (
          (find_by_ipv4 h.dst_ip b.registry ≢ none)
          × (can_reach_internet_ip b.config h.dst_ip h.src_ip ≡ true)))
        × (d.action ≢ drop → DeliversLocally b h d)
  tun_lem decided =
      let near : d.action ≢ drop → find_by_ipv4 h.dst_ip b.registry ≢ none =
        λ kept far. kept (tun_drops decided (inl far)) in
      let may : d.action ≢ drop → can_reach_internet_ip b.config h.dst_ip h.src_ip ≡ true = λ kept.
        elim (Bool-cases (can_reach_internet_ip b.config h.dst_ip h.src_ip)) [
          | inl y ↦ y
          | inr n ↦ absurd (kept (tun_drops decided (inr n)))
        ] in
      (
        (
          λ kept. (near kept, may kept),
          λ there. let found = tun_delivers decided there.0 there.1 in ground (arith, found),
        ),
        λ kept. tun_delivers decided (near kept) (may kept),
      )
