-- ===== src/Agent.antt =====
-- src/agent/setup.cpp: how the agent joins the network, and its handlers afterwards. The sockets
-- and the environment are scripts; what the program does to them is a list of values. The
-- `ConnInfo` objects stand on a heap, by address; a use of an address that is not live is a fault.
use v_net.Base.Map.{find, insert, erase}
use v_net.Base.{
  Option, none, ◌>>=◌, leb, ◌==◌, ◌-◌, ◌*◌, ℕ, some, List, [], ◌∷◌, ◌++◌, ℤ, minus_one, nat_eq,
  is_neg, Text, not, if◌then◌else◌, ◌^◌, ◌+◌, ◌%◌, zero, suc,
}
pub mod Join
pub mod Life
pub mod Program
pub mod Tests
use v_net.Host.{ByteOrder}
use v_net.Sockets.Connect.{
  MachineConfig, Stage, exits, enters, before, connect_from, if_sent, if_read,
}
use v_net.Protocol.Header.{
  agent_mip, connect_to_switch, auth_connect_to_switch, connection_accepted,
}
use v_net.Protocol.Mip.{Coders, PacketAgentMip, PacketConnectToSwitch, PacketAuthConnectToSwitch}
use v_net.NetQueue.Kernel.{Incoming}
use v_net.NetQueue.Write.{Outgoing}
use v_net.Sockets.{
  Ending, Reply, Written, Deed, opens, closes, sends, Connecting, connect_to, succeeds, fails,
  waits, send_protobuf_packet, read_protobuf_packet, gives, refuses, hangs, runs_on,
}

-- What the process has to do with: the arguments, the variables, what the peers do, and the
-- system's `inet_ntop` and `connect`, the latter for an address at each attempt.
pub record Surroundings : Type 0 where
  pub order : ByteOrder
  pub coders : Coders
  pub agent_name : Text
  pub auth_key : Text
  pub conductor_cfg : MachineConfig
  pub inet_ntop : ℕ → Text
  pub connecting : MachineConfig → ℕ → Connecting
  pub to_conductor : List Outgoing
  pub from_conductor : List Incoming
  pub to_switch : List Outgoing
  pub from_switch : List Incoming

abbrev pub max_connect_retries : ℕ
max_connect_retries = 20

pub connect_with_retry : (ℕ → Connecting) → List Deed × ℤ
unfolding connect_from
connect_with_retry connecting = connect_from connecting 1 max_connect_retries

-- "vnet.internal"
abbrev pub internal : Text
internal = 118 ∷ 110 ∷ 101 ∷ 116 ∷ 46 ∷ 105 ∷ 110 ∷ 116 ∷ 101 ∷ 114 ∷ 110 ∷ 97 ∷ 108 ∷ []

abbrev pub auth_pkt : PacketConnectToSwitch → PacketAuthConnectToSwitch
auth_pkt assignment = record { connection_token = assignment.connection_token }

module _ (e : Surroundings) (fuel : ℕ) where
  abbrev pub mip_pkt : PacketAgentMip
  mip_pkt = record { name = e.agent_name; auth_key = e.auth_key; network = internal }

  -- The last part of step 3.
  pub await_acceptance : ℤ → ℤ → List Deed × Stage
  await_acceptance cdt_sock sw_sock =
      if_read
        (read_protobuf_packet e.order e.coders.connection_accepted connection_accepted fuel
          e.from_switch)
        (closes sw_sock ∷ closes cdt_sock ∷ []) λ ack. ([], enters cdt_sock sw_sock)

  -- What is sent on the sockets.
  abbrev pub send_auth : PacketConnectToSwitch → Written
  send_auth assignment =
      send_protobuf_packet e.order auth_connect_to_switch
        (some (e.coders.auth_connect_to_switch.serialize (auth_pkt assignment))) e.to_switch

  abbrev pub send_mip : Written
  send_mip =
      send_protobuf_packet e.order agent_mip (some (e.coders.agent_mip.serialize mip_pkt))
        e.to_conductor

  pub authenticate : ℤ → ℤ → PacketConnectToSwitch → List Deed × Stage
  unfolding await_acceptance
  authenticate cdt_sock sw_sock assignment =
      before (sends sw_sock (send_auth assignment).wire ∷ []) (
        if_sent (send_auth assignment).ending (closes sw_sock ∷ closes cdt_sock ∷ [])
          (await_acceptance cdt_sock sw_sock))

  abbrev pub sw_cfg : PacketConnectToSwitch → MachineConfig
  sw_cfg assignment = record {
    ip = e.inet_ntop assignment.switch_ipv4;
    port = assignment.switch_port % 2 ^ 16;
  }

  -- Step 3.
  pub reach_switch : ℤ → PacketConnectToSwitch → List Deed × Stage
  unfolding authenticate
  reach_switch cdt_sock assignment =
      let (deeds, sw_sock) = connect_with_retry (e.connecting (sw_cfg assignment)) in
      before deeds (
        if is_neg sw_sock
        then (closes cdt_sock ∷ [], exits)
        else authenticate cdt_sock sw_sock assignment)

  -- Step 2.
  pub await_assignment : ℤ → List Deed × Stage
  unfolding reach_switch
  await_assignment cdt_sock =
      if_read
        (read_protobuf_packet e.order e.coders.connect_to_switch connect_to_switch fuel
          e.from_conductor)
        (closes cdt_sock ∷ []) (reach_switch cdt_sock)

  -- Step 1, once there is a socket.
  pub introduce : ℤ → List Deed × Stage
  unfolding await_assignment
  introduce cdt_sock =
      before (sends cdt_sock send_mip.wire ∷ [])
        (if_sent send_mip.ending (closes cdt_sock ∷ []) (await_assignment cdt_sock))

  -- `main` up to the event loop.
  pub join : List Deed × Stage
  unfolding introduce
  join =
      let (deeds, cdt_sock) = connect_with_retry (e.connecting e.conductor_cfg) in
      before deeds (if is_neg cdt_sock then ([], exits) else introduce cdt_sock)

pub data ConnRole : Type 0 where
  conductor_role switch_role : ConnRole

pub record ConnInfo : Type 0 where
  pub role : ConnRole
  pub fd : ℤ
  pub last_hb_sent : ℕ

-- The null pointer is `none`.
pub record AgentState : Type 0 where
  pub conns : List (ℕ × ConnInfo)
  pub conductor : Option ℕ
  pub sw : Option ℕ

-- The event loop is entered with new objects at `p` and `q`, made at two times, and with two calls of
-- `put_sck`.
pub enter_loop : ℕ → ℕ → ℤ → ℤ → ℕ → ℕ → AgentState × List (ℤ × ℕ)
enter_loop p q cdt_sock sw_sock now later =
    let cdt_info : ConnInfo = record { role = conductor_role; fd = cdt_sock; last_hb_sent = now } in
    let sw_info : ConnInfo = record { role = switch_role; fd = sw_sock; last_hb_sent = later } in
    (
      record { conns = insert q sw_info (insert p cdt_info []); conductor = some p; sw = some q },
      (cdt_sock, p) ∷ (sw_sock, q) ∷ [],
    )

pub forget : ℕ → Option ℕ → Option ℕ
forget p none = none
forget p (some q) = if p == q then none else some q

unfoldable pub on_close : Option ℕ → AgentState → Option AgentState
unfolding forget
on_close none s = some s
on_close (some p) s = do
  info ← find p s.conns
  some (record s { conns = erase p s.conns; conductor = forget p s.conductor; sw = forget p s.sw })

abbrev pub heartbeat_interval : ℕ
heartbeat_interval = 30 * 10 ^ 9

-- The lambda of `send_heartbeats`, with the sockets that a heartbeat is sent on.
unfoldable pub try_hb : ℕ → Option ℕ → AgentState → Option (AgentState × List ℤ)
try_hb now none s = some (s, [])
try_hb now (some p) s = do
  info ← find p s.conns
  some (
      if not (is_neg info.fd)
      then (if leb heartbeat_interval (now - info.last_hb_sent)
          then (
            record s { conns = insert p (record info { last_hb_sent = now }) s.conns },
            info.fd ∷ [],
          )
          else (s, []))
      else (s, []))

unfoldable pub send_heartbeats : ℕ → AgentState → Option (AgentState × List ℤ)
unfolding try_hb
send_heartbeats now s = do
  (s', sent) ← try_hb now s.conductor s
  (s'', more) ← try_hb now s'.sw s'
  some (s'', sent ++ more)
