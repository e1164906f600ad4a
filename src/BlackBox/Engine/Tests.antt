-- ===== src/BlackBox/Engine/Tests.antt =====
-- An engine with two agents, and packets between them.
use v_net.Host.{Endian, little}
use v_net.BlackBox.Ipv4.{zero_header, ipv4_parse}
use v_net.BlackBox.Ipv4.Accept.{
  IsPacket, header_of, Rejects, ipv4_parse_accepts, ipv4_parse-Rejects,
}
use v_net.BlackBox.AgentRegistry.{
  find_by_fd, deref, find_by_name, find_by_ipv4, register_agent, AgentRegistry, AgentEntry,
  empty_registry, destroy,
}
use v_net.BlackBox.AgentRegistry.Sound.{
  IsSound, IsFresh, registers, apply, apply-IsSound, start, call, Reachable-IsSound,
  register_agent-IsSound,
}
use v_net.BlackBox.AgentRegistry.Destroy.{destroy-IsSound}
use v_net.BlackBox.Config.{can_reach_internet_ip, Config}
use v_net.BlackBox.Engine.{
  process_header, drop, acl_denied, deliver_local, dropped, sent, BlackBox, process, agent, switch,
  tun, PacketDecision,
}
use v_net.BlackBox.Engine.Decide.{MaySend, Forwards}
use v_net.BlackBox.Engine.Valid.{
  process-IsPacket, process_decides, process_from_agent_lem, process_from_switch_lem,
  process_from_tun_lem,
}
use v_net.Base.Map.{find}
use v_net.BlackBox.Engine.Inbound.{DeliversLocally}
use v_net.Base.{
  nat_eq, true, ◌∙◌, length, arith, inl, ◌≤◌, ℕ, Text, Option, none, some, List, [], ◌∷◌, ◌≡◌, refl,
  ◌≢◌, ◌↔◌, ℤ, pos,
}

-- Two agents with rules for each other and an internet host.
abbrev pub alice : AgentEntry
alice = record { name = b'a' ∷ []; virtual_ipv4 = 16777226; fd = pos 7 }

abbrev pub bob : AgentEntry
bob = record { name = b'b' ∷ []; virtual_ipv4 = 33554442; fd = pos 8 }

abbrev pub two_agents : AgentRegistry
two_agents = record {
  heap = (100, alice) ∷ (200, bob) ∷ [];
  by_ipv4 = (16777226, 100) ∷ (33554442, 200) ∷ [];
  by_fd = (pos 7, 100) ∷ (pos 8, 200) ∷ [];
  by_name = (b'a' ∷ [], 100) ∷ (b'b' ∷ [], 200) ∷ [];
}

abbrev one_agent : AgentRegistry
one_agent = record {
  heap = (100, alice) ∷ [];
  by_ipv4 = (16777226, 100) ∷ [];
  by_fd = (pos 7, 100) ∷ [];
  by_name = (b'a' ∷ [], 100) ∷ [];
}

first-IsFresh : (p : ℕ) → some 100 ≡ some p → IsFresh (b'a' ∷ []) p empty_registry
unfolding v_net.Base.Map.find
first-IsFresh p e = inl refl

first_done :
    apply (registers (some 100) (b'a' ∷ []) 16777226 (pos 7)) empty_registry ≡ some one_agent
unfolding apply v_net.BlackBox.AgentRegistry.register_agent v_net.Base.Map.find
    v_net.Base.Map.insert
first_done = refl

second-IsFresh : (p : ℕ) → some 200 ≡ some p → IsFresh (b'b' ∷ []) p one_agent
unfolding v_net.Base.Map.find
second-IsFresh p e = inl (ground arith)

second_done : apply (registers (some 200) (b'b' ∷ []) 33554442 (pos 8)) one_agent ≡ some two_agents
unfolding apply v_net.BlackBox.AgentRegistry.register_agent v_net.Base.Map.find
    v_net.Base.Map.insert
second_done = refl

one_agent-IsSound : IsSound one_agent
one_agent-IsSound =
    Reachable-IsSound
      (call (registers (some 100) (b'a' ∷ []) 16777226 (pos 7)) start first-IsFresh first_done)

two_agents-IsSound : IsSound two_agents
two_agents-IsSound = Reachable-IsSound (
    call (registers (some 200) (b'b' ∷ []) 33554442 (pos 8))
      (call (registers (some 100) (b'a' ∷ []) 16777226 (pos 7)) start first-IsFresh first_done)
      second-IsFresh second_done)

abbrev pub engine : BlackBox
engine = record {
  config = record {
    name_to_ip = (b'a' ∷ [], 16777226) ∷ (b'b' ∷ [], 33554442) ∷ [];
    ip_to_name = (16777226, b'a' ∷ []) ∷ (33554442, b'b' ∷ []) ∷ [];
    agent_acl = (16777226, 33554442 ∷ []) ∷ (33554442, 16777226 ∷ []) ∷ [];
    internet_acl = (16777226, 134744072 ∷ []) ∷ [];
  };
  registry = two_agents;
  routing = record { routes = [] };
  tun_fd = pos 5;
}

-- A UDP packet from 10.0.0.1 to 10.0.0.2.
abbrev pub packet : List ℕ
packet =
    69 ∷ 0 ∷ 0 ∷ 24 ∷ 0 ∷ 0 ∷ 0 ∷ 0 ∷ 64 ∷ 17 ∷ 0 ∷ 0 ∷ 10 ∷ 0 ∷ 0 ∷ 1 ∷ 10 ∷ 0 ∷ 0 ∷ 2 ∷ 0 ∷ 53 ∷ 0
    ∷ 53 ∷ []

packet-length : 24 ≤ length packet
packet-length = omega arith

packet-IsPacket : IsPacket packet 24
packet-IsPacket = record {
  room = omega arith;
  version_4 = refl;
  ihl_5 = omega arith;
  options_fit = omega arith;
  total_fits = omega arith;
  ports_fit = λ h. omega arith;
}

from_alice_header :
    process_header agent (pos 7) (header_of little packet) engine
    ≡ some (sent deliver_local (pos 8))
unfolding process_header v_net.BlackBox.AgentRegistry.find_by_fd v_net.Base.Map.find
    v_net.Host.load32 v_net.BlackBox.Config.find_agent_for_ip
    v_net.BlackBox.Config.can_agents_communicate v_net.BlackBox.AgentRegistry.find_by_ipv4
from_alice_header = refl

from_alice :
    process little agent (pos 7) (some packet) 24 engine ≡ some (sent deliver_local (pos 8))
from_alice =
    process-IsPacket little packet 24 packet-length engine agent (pos 7) packet-IsPacket
    ∙ from_alice_header

from_switch_header :
    process_header switch (pos 9) (header_of little packet) engine
    ≡ some (sent deliver_local (pos 8))
unfolding process_header v_net.BlackBox.AgentRegistry.find_by_ipv4 v_net.Base.Map.find
    v_net.Host.load32
from_switch_header = refl

from_switch :
    process little switch (pos 9) (some packet) 24 engine ≡ some (sent deliver_local (pos 8))
from_switch =
    process-IsPacket little packet 24 packet-length engine switch (pos 9) packet-IsPacket
    ∙ from_switch_header

from_tun_header :
    process_header tun (pos 5) (header_of little packet) engine ≡ some (dropped acl_denied)
unfolding process_header v_net.BlackBox.AgentRegistry.find_by_ipv4 v_net.Base.Map.find
    v_net.Host.load32 v_net.BlackBox.Config.can_reach_internet_ip
from_tun_header = refl

from_tun : process little tun (pos 5) (some packet) 24 engine ≡ some (dropped acl_denied)
from_tun =
    process-IsPacket little packet 24 packet-length engine tun (pos 5) packet-IsPacket
    ∙ from_tun_header

process_from_agent_example :
    (deliver_local ≢ drop ↔ (IsPacket packet 24 × MaySend engine (pos 7) (header_of little packet)))
    × (deliver_local ≢ drop
        → Forwards engine (header_of little packet) (sent deliver_local (pos 8)))
process_from_agent_example =
    process_from_agent_lem little packet 24 packet-length engine (pos 7)
      (sent deliver_local (pos 8)) two_agents-IsSound from_alice

process_from_switch_example :
    (deliver_local ≢ drop ↔ (
      IsPacket packet 24 × (find_by_ipv4 (header_of little packet).dst_ip engine.registry ≢ none)))
    × (deliver_local ≢ drop
        → DeliversLocally engine (header_of little packet) (sent deliver_local (pos 8)))
process_from_switch_example =
    process_from_switch_lem little packet 24 packet-length engine (pos 9)
      (sent deliver_local (pos 8)) two_agents-IsSound from_switch

process_from_tun_example :
    (drop ≢ drop ↔ (
      IsPacket packet 24
      × ((find_by_ipv4 (header_of little packet).dst_ip engine.registry ≢ none)
          × (can_reach_internet_ip engine.config
                (header_of little packet).dst_ip
                (header_of little packet).src_ip
              ≡ true))))
    × (drop ≢ drop → DeliversLocally engine (header_of little packet) (dropped acl_denied))
process_from_tun_example =
    process_from_tun_lem little packet 24 packet-length engine (pos 5) (dropped acl_denied)
      two_agents-IsSound from_tun

process_decides_example :
    (d : PacketDecision) × (process little agent (pos 7) (some packet) 24 engine ≡ some d)
process_decides_example =
    process_decides little packet 24 packet-length engine agent (pos 7) two_agents-IsSound

ipv4_parse_accepts_example :
    ipv4_parse little (some packet) 24 zero_header ≡ some (true, header_of little packet)
ipv4_parse_accepts_example =
    ipv4_parse_accepts little packet 24 packet-length packet-IsPacket zero_header

short-IsPacket : ¬ IsPacket packet 19
short-IsPacket k = omega (arith, k.room)

ipv4_parse-Rejects_example : Rejects (ipv4_parse little (some packet) 19 zero_header)
ipv4_parse-Rejects_example =
    ipv4_parse-Rejects little packet 19 (omega arith) short-IsPacket zero_header

register_agent-IsSound_example :
    (q : AgentRegistry) × (register_agent (some 200) (b'b' ∷ []) 33554442 (pos 8) one_agent
      ≡ some (q, some 200))
    × IsSound q
    × (find_by_name (b'b' ∷ []) q ≡ some 200)
    × ((p : ℕ)
        → some 200 ≡ some p
        → (deref p q ≡ some bob)
          × (find_by_ipv4 33554442 q ≡ some p)
          × (find_by_fd (pos 8) q ≡ some p))
register_agent-IsSound_example =
    register_agent-IsSound one_agent (some 200) (b'b' ∷ []) 33554442 (pos 8) one_agent-IsSound
      second-IsFresh

apply-IsSound_example :
    (q : AgentRegistry) × (apply (registers (some 200) (b'b' ∷ []) 33554442 (pos 8)) one_agent
      ≡ some q)
    × IsSound q
apply-IsSound_example =
    apply-IsSound (registers (some 200) (b'b' ∷ []) 33554442 (pos 8)) one_agent one_agent-IsSound
      second-IsFresh

destroy-IsSound_example :
    (q : AgentRegistry) × (destroy two_agents ≡ some q) × ((p : ℕ) → find p q.heap ≡ none)
destroy-IsSound_example = destroy-IsSound two_agents two_agents-IsSound
