-- ===== src/BlackBox/Engine.antt =====
-- src/blackbox/blackbox.cpp: the state of a switch's packet engine, its hooks and its decisions.
-- A use of a dangling pointer, or a read past a packet, is a fault, `none`. What the hooks print
-- is left out; the entry whose name they print is read.
pub mod Decide
pub mod Valid
pub mod Inbound
pub mod Hooks
pub mod Tests
use v_net.BlackBox.Ipv4.{IPv4Header, zero_header, ipv4_parse}
use v_net.BlackBox.AgentRegistry.{
  AgentEntry, AgentRegistry, empty_registry, deref, find_by_fd, find_by_ipv4, register_agent,
  unregister_by_fd,
}
use v_net.BlackBox.RoutingTable.{
  RoutingTable, no_routes, set_route, remove_route, remove_routes_for_switch, lookup,
}
use v_net.BlackBox.Config.{
  Config, is_some, find_agent_for_ip, find_ip_for_agent, can_agents_communicate,
  can_reach_internet_ip,
}
use v_net.BlackBox.Config.Lexer.{is_empty}
use v_net.Host.{Endian}
use v_net.Base.{
  false, nat_eq, ◌==◌, Bool, is_neg, none, not, List, Text, if◌then◌else◌, some, ◌>>=◌, Option,
  minus_one, ℕ, ℤ,
}

pub data SourceType : Type 0 where
  agent switch tun : SourceType

pub data PacketAction : Type 0 where
  deliver_local forward_switch forward_internet request_route drop : PacketAction

pub data DropReason : Type 0 where
  no_reason malformed_packet source_spoof source_unknown dest_unreachable acl_denied : DropReason

pub record PacketDecision : Type 0 where
  pub action : PacketAction
  pub target_fd : ℤ
  pub dest_ipv4 : ℕ
  pub drop_reason : DropReason

pub record BlackBox : Type 0 where
  pub config : Config
  pub registry : AgentRegistry
  pub routing : RoutingTable
  pub tun_fd : ℤ

-- The constructor.
unfoldable pub init : Config → ℤ → BlackBox
init config tun_fd = record {
  config = config;
  registry = empty_registry;
  routing = no_routes;
  tun_fd = tun_fd;
}

abbrev pub dropped : DropReason → PacketDecision
dropped reason = record {
  action = drop;
  target_fd = minus_one;
  dest_ipv4 = 0;
  drop_reason = reason;
}

abbrev pub sent : PacketAction → ℤ → PacketDecision
sent action fd = record { action = action; target_fd = fd; dest_ipv4 = 0; drop_reason = no_reason }

abbrev pub asked : ℕ → PacketDecision
asked dest = record {
  action = request_route;
  target_fd = minus_one;
  dest_ipv4 = dest;
  drop_reason = no_reason;
}

-- `route_to_destination` for a destination that no local agent has.
route_remote : ℕ → BlackBox → PacketDecision
route_remote dest_ipv4 b =
    let next_switch = lookup b.routing dest_ipv4 in
    if not (is_neg next_switch) then sent forward_switch next_switch else asked dest_ipv4

route_internet : ℕ → ℕ → BlackBox → PacketDecision
route_internet src_ipv4 dest_ipv4 b =
    if is_neg b.tun_fd
    then dropped dest_unreachable
    else if not (can_reach_internet_ip b.config src_ipv4 dest_ipv4)
    then dropped acl_denied
    else sent forward_internet b.tun_fd

pub route_to_destination : ℕ → ℕ → BlackBox → Option PacketDecision
unfolding route_remote route_internet
route_to_destination src_ipv4 dest_ipv4 b =
    if not (is_empty (find_agent_for_ip b.config dest_ipv4))
    then if not (can_agents_communicate b.config src_ipv4 dest_ipv4)
      then some (dropped acl_denied)
      else elim (find_by_ipv4 dest_ipv4 b.registry) [
        | some p ↦ do local ← deref p b.registry; some (sent deliver_local local.fd)
        | none ↦ some (route_remote dest_ipv4 b)
      ]
    else some (route_internet src_ipv4 dest_ipv4 b)

pub process_from_agent : ℤ → IPv4Header → BlackBox → Option PacketDecision
unfolding route_to_destination
process_from_agent source_fd hdr b = elim (find_by_fd source_fd b.registry) [
  | none ↦ some (dropped source_unknown)
  | some p ↦ do
    sender ← deref p b.registry
    if not (hdr.src_ip == sender.virtual_ipv4)
        then some (dropped source_spoof)
        else route_to_destination sender.virtual_ipv4 hdr.dst_ip b
]

pub process_from_switch : IPv4Header → BlackBox → Option PacketDecision
process_from_switch hdr b = elim (find_by_ipv4 hdr.dst_ip b.registry) [
  | some p ↦ do dest ← deref p b.registry; some (sent deliver_local dest.fd)
  | none ↦ some (dropped dest_unreachable)
]

pub process_from_tun : IPv4Header → BlackBox → Option PacketDecision
process_from_tun hdr b = elim (find_by_ipv4 hdr.dst_ip b.registry) [
  | none ↦ some (dropped dest_unreachable)
  | some p ↦
      if not (can_reach_internet_ip b.config hdr.dst_ip hdr.src_ip)
      then some (dropped acl_denied)
      else do dest ← deref p b.registry; some (sent deliver_local dest.fd)
]

-- The `switch` of `process`.
pub process_header : SourceType → ℤ → IPv4Header → BlackBox → Option PacketDecision
unfolding process_from_agent process_from_switch process_from_tun
process_header agent source_fd hdr b = process_from_agent source_fd hdr b
process_header switch source_fd hdr b = process_from_switch hdr b
process_header tun source_fd hdr b = process_from_tun hdr b

pub process : Endian → SourceType → ℤ → Option (List ℕ) → ℕ → BlackBox → Option PacketDecision
process e source_type source_fd raw_ipv4 len b = do
  parsed ← ipv4_parse e raw_ipv4 len zero_header
  if parsed.0
      then process_header source_type source_fd parsed.1 b
      else some (dropped malformed_packet)

-- ----- hooks

pub on_agent_authenticated : Option ℕ → Text → ℤ → BlackBox → Option (BlackBox × Bool)
on_agent_authenticated new_entry name fd b =
    let ipv4 = find_ip_for_agent b.config name in
    if ipv4 == 0 then some (b, false) else do
      done ← register_agent new_entry name ipv4 fd b.registry
      some (record b { registry = done.0 }, is_some done.1)

-- The name that `on_agent_disconnected` prints.
farewell : ℤ → BlackBox → Option (Option Text)
farewell fd b = elim (find_by_fd fd b.registry) [
  | none ↦ some none
  | some p ↦ do entry ← deref p b.registry; some (some entry.name)
]

pub on_agent_disconnected : ℤ → BlackBox → Option BlackBox
unfolding farewell
on_agent_disconnected fd b = do
  printed ← farewell fd b
  registry ← unregister_by_fd fd b.registry
  some (record b { registry = registry })

pub on_route_update : ℕ → ℤ → BlackBox → BlackBox
on_route_update dest_ipv4 next_switch_fd b =
    if is_neg next_switch_fd
    then record b { routing = remove_route dest_ipv4 b.routing }
    else record b { routing = set_route dest_ipv4 next_switch_fd b.routing }

pub on_switch_disconnected : ℤ → BlackBox → BlackBox
on_switch_disconnected switch_fd b = record b {
  routing = remove_routes_for_switch switch_fd b.routing;
}
