-- ===== src/Switch/Program/Takes.antt =====
-- The packets that the switch of src/switch/setup.cpp takes, without the event queue.
use v_net.Base.{
  ℕ, ℤ, Option, none, some, List, [], ◌∷◌, ◌++◌, ◌≡◌, ◌≢◌, ◌+◌, ◌>>=◌, arith, nat_eq, int_eq,
  length,
}
use v_net.Base.Map.{find}
use v_net.Protocol.Header.{connection_accepted}
use v_net.Protocol.Header.Wire.{wire_header}
use v_net.Protocol.Dispatch.{
  MethodCall, calls_heartbeat, calls_switch_mip, calls_agent_mip, calls_connect_to_switch,
  calls_agent_connection_token, calls_auth_connect_to_switch, calls_connection_accepted,
  calls_agent_mrp, on_socket_ready,
}
use v_net.Protocol.Mip.{Coders, mip_messages}
use v_net.NetQueue.Element.{SocketData}
use v_net.Switch.{
  SwitchState, QueueCall, queue_send_accepted, on_agent_connection_token, on_auth_connect_to_switch,
}

-- The switch's state, the clock's readings so far, and the bytes of the answers.
abbrev pub Progress : Type 0
Progress = SwitchState × ℕ × List ℕ

module _ (c : Coders) (clock : ℕ → ℕ) where
  -- The frame of the acceptance.
  abbrev pub answer : List ℕ
  answer =
      let body = c.connection_accepted.serialize tt in
      wire_header (length body) connection_accepted ++ body

  -- A packet that the switch takes; it does not take a token that it was not told of.
  unfoldable pub takes_call : MethodCall (mip_messages c) → SocketData → Progress → Option Progress
  takes_call calls_heartbeat d x = some x
  takes_call (calls_switch_mip pkt) d x = some x
  takes_call (calls_agent_mip pkt) d x = some x
  takes_call (calls_connect_to_switch pkt) d x = some x
  takes_call (calls_agent_connection_token pkt) d (s, n, out) =
      some (on_agent_connection_token pkt.connection_token pkt.agent_name (clock n) s, n + 1, out)
  takes_call (calls_auth_connect_to_switch pkt) d (s, n, out) = do
    t ← find pkt.connection_token s.pending_tokens
    (s', calls) ← on_auth_connect_to_switch d.ptr_data d.fd pkt.connection_token s
    some (s', n, out ++ answer)
  takes_call (calls_connection_accepted pkt) d x = some x
  takes_call (calls_agent_mrp pkt) d x = some x

  unfoldable pub takes_packet : Progress → SocketData → Option Progress
  unfolding takes_call
  takes_packet x d = elim (on_socket_ready (mip_messages c) d) [
    | none ↦ some x
    | some call ↦ takes_call call d x
  ]

-- The call that follows a known token.
pub auth-answers :
    (p : ℕ) (fd : ℤ) (token : ℕ) (s : SwitchState) (s' : SwitchState) (calls : List QueueCall)
    → find token s.pending_tokens ≢ none
    → on_auth_connect_to_switch p fd token s ≡ some (s', calls)
    → calls ≡ queue_send_accepted fd ∷ []
unfolding on_auth_connect_to_switch
auth-answers p fd token s s' calls known done = ground (arith, known, done)
