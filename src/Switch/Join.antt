-- ===== src/Switch/Join.antt =====
-- `main` of src/switch/setup.cpp up to the event loop: the switch registers with the conductor,
-- listens for agents and puts the conductor's socket into the queue. The sockets are scripts, as for
-- the agent; what the program does to them is a list of values.
use v_net.Base.{
  ℕ, ℤ, List, [], ◌∷◌, Option, none, some, Bool, is_neg, not, if◌then◌else◌, Text, nat_eq,
}
use v_net.Host.{ByteOrder}
use v_net.Protocol.Header.{switch_mip}
use v_net.Protocol.Mip.{Coders, PacketSwitchMip}
use v_net.NetQueue.Write.{Outgoing}
use v_net.NetQueue.Queue
use v_net.NetQueue.Queue.{Queue, PutChances, put_sck}
use v_net.Sockets.{Deed, opens, closes, sends, Connecting, Written, send_protobuf_packet}
use v_net.Sockets.Connect.{MachineConfig, Stage, exits, enters, before, connect_from, if_sent}
use v_net.Switch.{SwitchState, start}

-- What `socket`, `bind` and `listen` return.
pub record Listening : Type 0 where
  pub socket : ℤ
  pub binds : Bool
  pub listens : Bool

-- The arguments and the variables, and what the system and the conductor do.
pub record Surroundings : Type 0 where
  pub order : ByteOrder
  pub coders : Coders
  pub switch_name : Text
  pub auth_key : Text
  pub port : ℕ
  pub conductor_cfg : MachineConfig
  pub connecting : MachineConfig → ℕ → Connecting
  pub to_conductor : List Outgoing
  pub listening : Listening

abbrev pub max_connect_retries : ℕ
max_connect_retries = 20

-- "::internet"
abbrev pub internet : Text
internet = 58 ∷ 58 ∷ 105 ∷ 110 ∷ 116 ∷ 101 ∷ 114 ∷ 110 ∷ 101 ∷ 116 ∷ []

-- "conductor"
abbrev pub conductor_name : Text
conductor_name = 99 ∷ 111 ∷ 110 ∷ 100 ∷ 117 ∷ 99 ∷ 116 ∷ 111 ∷ 114 ∷ []

unfoldable pub connect_with_retry : (ℕ → Connecting) → List Deed × ℤ
connect_with_retry connecting = connect_from connecting 1 max_connect_retries

module _ (e : Surroundings) where
  abbrev pub mip_pkt : PacketSwitchMip
  mip_pkt = record {
    name = e.switch_name;
    auth_key = e.auth_key;
    network = internet;
    port = e.port;
  }

  abbrev pub send_mip : Written
  send_mip =
      send_protobuf_packet e.order switch_mip (some (e.coders.switch_mip.serialize mip_pkt))
        e.to_conductor

  -- Step 2.
  unfoldable pub create_listener : ℤ → List Deed × Stage
  create_listener cdt_sock =
      let l = e.listening in
      if is_neg l.socket
      then ([], exits)
      else if not l.binds
      then (opens l.socket ∷ [], exits)
      else if not l.listens
      then (opens l.socket ∷ [], exits)
      else (opens l.socket ∷ [], enters cdt_sock l.socket)

  -- Step 1, once there is a socket.
  unfoldable pub introduce : ℤ → List Deed × Stage
  unfolding create_listener
  introduce cdt_sock =
      before (sends cdt_sock send_mip.wire ∷ [])
        (if_sent send_mip.ending (closes cdt_sock ∷ []) (create_listener cdt_sock))

  -- `main` up to step 3.
  unfoldable pub register : List Deed × Stage
  unfolding connect_with_retry introduce
  register =
      let (deeds, cdt_sock) = connect_with_retry (e.connecting e.conductor_cfg) in
      before deeds (if is_neg cdt_sock then ([], exits) else introduce cdt_sock)

-- Step 3, with a new `ConnInfo` at `p` and a new element of the queue at `el`; it is `none` when the
-- queue does not take the socket, and `main` then returns 1.
unfoldable pub enter_loop : PutChances → ℕ → ℕ → ℤ → ℕ → Option (SwitchState × Queue)
enter_loop c el p cdt_sock now =
    let (taken, q) = put_sck c el cdt_sock p Queue.start in
    elim taken [ none ↦ none | some el' ↦ some (start p conductor_name cdt_sock now, q) ]
