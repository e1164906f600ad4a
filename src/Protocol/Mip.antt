-- ===== src/Protocol/Mip.antt =====
-- The messages of proto/mip.proto, and their coders, which protobuf generates.
use v_net.Protocol.Dispatch.{Coder, Messages}
use v_net.Base.{ℕ, Text}

pub record PacketSwitchMip : Type 0 where
  pub name : Text
  pub auth_key : Text
  pub network : Text
  pub port : ℕ

pub record PacketAgentMip : Type 0 where
  pub name : Text
  pub auth_key : Text
  pub network : Text

pub record PacketConnectToSwitch : Type 0 where
  pub switch_name : Text
  pub switch_ipv4 : ℕ
  pub connection_token : ℕ
  pub switch_port : ℕ

pub record PacketAgentConnectionToken : Type 0 where
  pub agent_name : Text
  pub connection_token : ℕ

pub record PacketAuthConnectToSwitch : Type 0 where
  pub connection_token : ℕ

pub record PacketAgentMrp : Type 0 where
  pub name : Text
  pub auth_key : Text

-- `PacketConnectionAccepted` has no field.
abbrev pub PacketConnectionAccepted : Type 0
PacketConnectionAccepted = Unit {0}

pub record Coders : Type 0 where
  pub switch_mip : Coder PacketSwitchMip
  pub agent_mip : Coder PacketAgentMip
  pub connect_to_switch : Coder PacketConnectToSwitch
  pub agent_connection_token : Coder PacketAgentConnectionToken
  pub auth_connect_to_switch : Coder PacketAuthConnectToSwitch
  pub connection_accepted : Coder PacketConnectionAccepted
  pub agent_mrp : Coder PacketAgentMrp

-- The messages that `Dispatch::onSocketReady` parses.
abbrev pub mip_messages : Coders → Messages
mip_messages c = record {
  SwitchMip = PacketSwitchMip;
  AgentMip = PacketAgentMip;
  ConnectToSwitch = PacketConnectToSwitch;
  AgentConnectionToken = PacketAgentConnectionToken;
  AuthConnectToSwitch = PacketAuthConnectToSwitch;
  ConnectionAccepted = PacketConnectionAccepted;
  AgentMrp = PacketAgentMrp;
  switch_mip_coder = c.switch_mip;
  agent_mip_coder = c.agent_mip;
  connect_to_switch_coder = c.connect_to_switch;
  agent_connection_token_coder = c.agent_connection_token;
  auth_connect_to_switch_coder = c.auth_connect_to_switch;
  connection_accepted_coder = c.connection_accepted;
  agent_mrp_coder = c.agent_mrp;
}
