-- ===== src/Conductor.antt =====
-- src/conductor/setup.cpp: what the conductor keeps of its switches and agents, and its handlers.
-- The `ConnInfo` objects stand on a heap, by address; a use of an address that is not live is a
-- fault. Steady times are nanoseconds of a clock that never steps back, the other times unix
-- milliseconds. The bytes that go to a socket and the calls of the queue are values.
pub mod Pick
pub mod Dump
pub mod Run
pub mod Sound
pub mod Faults
pub mod Assign
pub mod Announce
pub mod Register
pub mod Program
pub mod Tests
use v_net.Base.{
  ℕ, Option, none, some, List, [], ◌∷◌, ◌++◌, ℤ, nat_eq, text_eq, is_neg, Text, ◌>>=◌, Bool, leb,
  not, ◌==◌, if◌then◌else◌, ◌-◌, ◌*◌, ◌^◌, ◌+◌, ◌%◌, ◌||◌, zero, suc, length, get_elem?,
}
use v_net.Base.Map.{find, insert, erase}
use v_net.Base.Pointers.{remove}
use v_net.Host.{ByteOrder}
use v_net.Protocol.Header.{connect_to_switch, agent_connection_token}
use v_net.Protocol.Mip.{
  Coders, PacketSwitchMip, PacketAgentMip, PacketAgentMrp, PacketConnectToSwitch,
  PacketAgentConnectionToken,
}
use v_net.NetQueue.Write.{Outgoing}
use v_net.Sockets.{Written, is_success, succeeds, send_protobuf_packet}

pub data Role : Type 0 where
  unknown switch_conn agent_conn : Role

pub record ConnInfo : Type 0 where
  pub role : Role
  pub name : Text
  pub auth_key : Text
  pub network : Text
  pub sw_port : ℕ
  pub sw_ipv4 : ℕ
  pub fd : ℤ
  pub last_hb_sent : ℕ
  pub connected_at_ms : ℕ

pub record PendingTokenInfo : Type 0 where
  pub agent_name : Text
  pub switch_name : Text
  pub created_at_ms : ℕ
  pub token : ℕ

pub record ConductorState : Type 0 where
  pub conns : List (ℕ × ConnInfo)
  pub switches : List ℕ
  pub agents : List ℕ
  pub pending_tokens : List PendingTokenInfo
  pub rr_index : ℕ

abbrev pub start : ConductorState
start = record { conns = []; switches = []; agents = []; pending_tokens = []; rr_index = 0 }

pub data Call : Type 0 where
  sends : ℤ → List ℕ → Call
  queue_close queue_send_heartbeat : ℤ → Call

abbrev pub heartbeat_interval : ℕ
heartbeat_interval = 30 * 10 ^ 9

-- "::internet"
abbrev pub internet : Text
internet = 58 ∷ 58 ∷ 105 ∷ 110 ∷ 116 ∷ 101 ∷ 114 ∷ 110 ∷ 101 ∷ 116 ∷ []

unfoldable pub is_reachable : Text → ConnInfo → Bool
is_reachable agent_network sw = sw.network == agent_network || sw.network == internet

-- The loop of `pick_switch`, from `i` on, over as many indices as the number says: the index of the
-- first switch that is reachable, and the switch.
pub first_reachable : Text → ConductorState → ℕ → ℕ → Option (Option (ℕ × ℕ))
unfolding is_reachable
first_reachable agent_network s i zero = some none
first_reachable agent_network s i (suc n) = do
  let rest = first_reachable agent_network s (i + 1) n
  let idx = (s.rr_index + i) % 2 ^ 64 % length s.switches
  p ← get_elem? s.switches idx
  sw ← find p s.conns
  if is_reachable agent_network sw then some (some (idx, p)) else rest

-- What `pick_switch` does once the loop has ended.
pub pick_found : Option (ℕ × ℕ) → ConductorState → Option (Option ℕ × ConductorState)
pick_found (some (idx, p)) s = some (some p, record s { rr_index = (idx + 1) % 2 ^ 64 })
pick_found none s = do
  p ← get_elem? s.switches (s.rr_index % length s.switches)
  some (some p, record s { rr_index = (s.rr_index + 1) % 2 ^ 64 })

-- The switch is null for `none`.
pub pick_switch : Text → ConductorState → Option (Option ℕ × ConductorState)
unfolding first_reachable pick_found
pick_switch agent_network s =
    if length s.switches == 0
    then some (none, s)
    else do found ← first_reachable agent_network s 0 (length s.switches); pick_found found s

-- `std::remove_if` on the pending tokens.
pub drop_tokens : (PendingTokenInfo → Bool) → List PendingTokenInfo → List PendingTokenInfo
drop_tokens test [] = []
drop_tokens test (t ∷ ts) = let rest = drop_tokens test ts in if test t then rest else t ∷ rest

pub remove_switch : ℕ → ConnInfo → ConductorState → ConductorState
unfolding drop_tokens
remove_switch p info s = record s {
  switches = remove p s.switches;
  pending_tokens = drop_tokens (λ t. t.switch_name == info.name) s.pending_tokens;
}

pub remove_agent : ℕ → ConductorState → ConductorState
remove_agent p s = record s { agents = remove p s.agents }

pub remove_pending_token : ℕ → ConductorState → ConductorState
unfolding drop_tokens
remove_pending_token token s = record s {
  pending_tokens = drop_tokens (λ t. t.token == token) s.pending_tokens;
}

-- A connection that `accept4` gave, with a new `ConnInfo` at `p`; `put` tells whether the queue
-- took it.
pub accept_client : Bool → ℕ → ℤ → ℕ → ConductorState → ConductorState
accept_client put p fd now s =
    let info : ConnInfo = record {
      role = unknown;
      name = [];
      auth_key = [];
      network = [];
      sw_port = 0;
      sw_ipv4 = 0;
      fd = fd;
      last_hb_sent = now;
      connected_at_ms = 0;
    } in
    if put
    then record s { conns = insert p info s.conns }
    else record s { conns = erase p (insert p info s.conns) }

-- What `getpeername` stored is an address, or nothing.
pub on_switch_mip : ℕ → ℤ → PacketSwitchMip → ℕ → Option ℕ → ConductorState → Option ConductorState
on_switch_mip p fd pkt now_ms peer s = do
  info ← find p s.conns
  let known : ConnInfo = record info {
    role = switch_conn;
    name = pkt.name;
    auth_key = pkt.auth_key;
    network = pkt.network;
    sw_port = pkt.port % 2 ^ 16;
    fd = fd;
    connected_at_ms = now_ms;
    sw_ipv4 = elim peer [ none ↦ info.sw_ipv4 | some ipv4 ↦ ipv4 ];
  }
  some (record s { conns = insert p known s.conns; switches = s.switches ++ p ∷ [] })

abbrev pub assignment : ConnInfo → ℕ → PacketConnectToSwitch
assignment sw token = record {
  switch_name = sw.name;
  switch_ipv4 = sw.sw_ipv4;
  connection_token = token;
  switch_port = sw.sw_port;
}

abbrev pub notice : Text → ℕ → PacketAgentConnectionToken
notice agent_name token = record { agent_name = agent_name; connection_token = token }

-- What the environment gives to one run of `onAgentMIP`: the random token, the times, and what
-- the writes to the agent and to the switch will do.
pub record Chances : Type 0 where
  pub order : ByteOrder
  pub coders : Coders
  pub now_ms : ℕ
  pub later_ms : ℕ
  pub token : ℕ
  pub to_agent : List Outgoing
  pub to_switch : List Outgoing

abbrev pub tell_agent : Chances → ConnInfo → Written
tell_agent c sw =
    send_protobuf_packet c.order connect_to_switch
      (some (c.coders.connect_to_switch.serialize (assignment sw c.token))) c.to_agent

abbrev pub notify_switch : Chances → Text → Written
notify_switch c name =
    send_protobuf_packet c.order agent_connection_token
      (some (c.coders.agent_connection_token.serialize (notice name c.token))) c.to_switch

-- Both pushes at the end of `onAgentMIP`.
abbrev pub push_agent : Chances → ℕ → Text → ConnInfo → ConductorState → ConductorState
push_agent c p name sw s =
    let pending : PendingTokenInfo = record {
      agent_name = name;
      switch_name = sw.name;
      created_at_ms = c.later_ms;
      token = c.token;
    } in
    record s { pending_tokens = s.pending_tokens ++ pending ∷ []; agents = s.agents ++ p ∷ [] }

-- `onAgentMIP` from the choice of the switch on. A send that waits keeps the handler from
-- returning: the result is then the state it waits in.
pub assign_switch :
    Chances → ℕ → ℤ → Text → ℕ → ConductorState → Option (ConductorState × List Call)
assign_switch c p fd name q s = do
  sw ← find q s.conns
  let told = tell_agent c sw
  let noticed = notify_switch c name
  if not (is_success told.ending)
      then some (s, sends fd told.wire ∷ [])
      else if not (is_success noticed.ending)
      then some (s, sends fd told.wire ∷ sends sw.fd noticed.wire ∷ [])
      else some (push_agent c p name sw s, sends fd told.wire ∷ sends sw.fd noticed.wire ∷ [])

pub on_agent_mip :
    Chances → ℕ → ℤ → PacketAgentMip → ConductorState → Option (ConductorState × List Call)
unfolding pick_switch assign_switch
on_agent_mip c p fd pkt s = do
  info ← find p s.conns
  let known : ConnInfo = record info {
    role = agent_conn;
    name = pkt.name;
    auth_key = pkt.auth_key;
    network = pkt.network;
    fd = fd;
    connected_at_ms = c.now_ms;
  }
  (picked, s') ← pick_switch pkt.network (record s { conns = insert p known s.conns })
  elim picked [
    | none ↦ some (s', queue_close fd ∷ [])
    | some q ↦ assign_switch c p fd pkt.name q s'
  ]

pub on_agent_mrp : ℕ → ℤ → PacketAgentMrp → ℕ → ConductorState → Option ConductorState
on_agent_mrp p fd pkt now_ms s = do
  info ← find p s.conns
  let known : ConnInfo = record info {
    role = agent_conn;
    name = pkt.name;
    auth_key = pkt.auth_key;
    fd = fd;
    connected_at_ms = now_ms;
  }
  some (record s { conns = insert p known s.conns; agents = s.agents ++ p ∷ [] })

-- What `onClose` removes, by the role.
pub forget : Role → ℕ → ConnInfo → ConductorState → ConductorState
unfolding remove_switch remove_agent
forget switch_conn p info s = remove_switch p info s
forget agent_conn p info s = remove_agent p s
forget unknown p info s = s

-- The pointer is null for `none`.
pub on_close : Option ℕ → ConductorState → Option ConductorState
unfolding forget
on_close none s = some s
on_close (some p) s = do
  info ← find p s.conns
  let s' = forget info.role p info s
  some (record s' { conns = erase p s'.conns })

-- The lambda of `send_heartbeats`.
pub try_hb : ℕ → ℕ → ConductorState → Option (ConductorState × List Call)
try_hb now p s = do
  info ← find p s.conns
  some (
      if not (is_neg info.fd)
      then (if leb heartbeat_interval (now - info.last_hb_sent)
          then (
            record s { conns = insert p (record info { last_hb_sent = now }) s.conns },
            queue_send_heartbeat info.fd ∷ [],
          )
          else (s, []))
      else (s, []))

pub try_hbs : ℕ → List ℕ → ConductorState → Option (ConductorState × List Call)
unfolding try_hb
try_hbs now [] s = some (s, [])
try_hbs now (p ∷ ps) s = do
  (s', sent) ← try_hb now p s
  (s'', more) ← try_hbs now ps s'
  some (s'', sent ++ more)

pub send_heartbeats : ℕ → ConductorState → Option (ConductorState × List Call)
unfolding try_hbs
send_heartbeats now s = do
  (s', sent) ← try_hbs now s.switches s
  (s'', more) ← try_hbs now s'.agents s'
  some (s'', sent ++ more)
