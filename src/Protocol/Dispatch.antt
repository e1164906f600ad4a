-- ===== src/Protocol/Dispatch.antt =====
-- src/protocol/dispatch.cpp: which virtual method a packet leads to, and with which message. The
-- messages of proto/ and their parsers are an interface: protobuf parses what it has serialized.
pub mod Roundtrip
use v_net.Protocol.Header.{
  heartbeat, switch_mip, agent_mip, connect_to_switch, agent_connection_token,
  auth_connect_to_switch, connection_accepted, agent_mrp,
}
use v_net.NetQueue.Element.{SocketData}
use v_net.Base.{[], ℕ, List, Option, none, some, ◌≡◌, nat_eq, ◌==◌, if◌then◌else◌, take}

-- `SerializeToString`, `ParseFromArray` and `Clear` of a message type. No bytes are the message
-- with every field at its default, which `Clear` leaves.
pub record Coder (T : Type 0) : Type 0 where
  pub serialize : T → List ℕ
  pub parse : List ℕ → Option T
  pub parse-serialize : (m : T) → parse (serialize m) ≡ some m
  pub cleared : T
  pub parse-nil : parse [] ≡ some cleared

pub record Messages : Type 1 where
  pub SwitchMip : Type 0
  pub AgentMip : Type 0
  pub ConnectToSwitch : Type 0
  pub AgentConnectionToken : Type 0
  pub AuthConnectToSwitch : Type 0
  pub ConnectionAccepted : Type 0
  pub AgentMrp : Type 0
  pub switch_mip_coder : Coder SwitchMip
  pub agent_mip_coder : Coder AgentMip
  pub connect_to_switch_coder : Coder ConnectToSwitch
  pub agent_connection_token_coder : Coder AgentConnectionToken
  pub auth_connect_to_switch_coder : Coder AuthConnectToSwitch
  pub connection_accepted_coder : Coder ConnectionAccepted
  pub agent_mrp_coder : Coder AgentMrp

-- The calls of virtual methods, without the `socket_data` that each of them is given.
pub data MethodCall (m : Messages) : Type 0 where
  calls_heartbeat : MethodCall m
  calls_switch_mip : m.SwitchMip → MethodCall m
  calls_agent_mip : m.AgentMip → MethodCall m
  calls_connect_to_switch : m.ConnectToSwitch → MethodCall m
  calls_agent_connection_token : m.AgentConnectionToken → MethodCall m
  calls_auth_connect_to_switch : m.AuthConnectToSwitch → MethodCall m
  calls_connection_accepted : m.ConnectionAccepted → MethodCall m
  calls_agent_mrp : m.AgentMrp → MethodCall m

-- `if (packet.ParseFromArray(...)) on...(data, packet)`
abbrev pub if_parsed : {T R : Type 0} → Coder T → (T → R) → SocketData → Option R
if_parsed c call received = elim (c.parse (take received.payload_size received.packet_buffer)) [
  | none ↦ none
  | some packet ↦ some (call packet)
]

-- The `switch` of `onSocketReady`; none when no method is called.
unfoldable pub on_socket_ready : (m : Messages) → SocketData → Option (MethodCall m)
on_socket_ready m received =
    if received.packet_type == heartbeat
    then some calls_heartbeat
    else if received.packet_type == switch_mip
    then if_parsed m.switch_mip_coder calls_switch_mip received
    else if received.packet_type == agent_mip
    then if_parsed m.agent_mip_coder calls_agent_mip received
    else if received.packet_type == connect_to_switch
    then if_parsed m.connect_to_switch_coder calls_connect_to_switch received
    else if received.packet_type == agent_connection_token
    then if_parsed m.agent_connection_token_coder calls_agent_connection_token received
    else if received.packet_type == auth_connect_to_switch
    then if_parsed m.auth_connect_to_switch_coder calls_auth_connect_to_switch received
    else if received.packet_type == connection_accepted
    then if_parsed m.connection_accepted_coder calls_connection_accepted received
    else if received.packet_type == agent_mrp
    then if_parsed m.agent_mrp_coder calls_agent_mrp received
    else none
