-- ===== src/Conductor/Program/Takes.antt =====
-- The packets that the conductor of src/conductor/setup.cpp takes without closing a connection.
use v_net.Base.{ℕ, ℤ, Option, none, some, List, [], ◌∷◌, ◌≡◌, arith, ◌>>=◌, inl, inr, Option-cases}
use v_net.Protocol.Dispatch.{
  MethodCall, calls_heartbeat, calls_switch_mip, calls_agent_mip, calls_connect_to_switch,
  calls_agent_connection_token, calls_auth_connect_to_switch, calls_connection_accepted,
  calls_agent_mrp, on_socket_ready,
}
use v_net.Protocol.Mip.{Coders, mip_messages}
use v_net.NetQueue.Element.{SocketData}
use v_net.NetQueue.Queue.{Queue}
use v_net.NetQueue.Queue.Turn.Keep.{TakesQuietly}
use v_net.Conductor.{
  Chances, Call, sends, queue_close, queue_send_heartbeat, on_switch_mip, on_agent_mip,
  on_agent_mrp,
}
use v_net.Conductor.Program.{
  World, note_sent, handled_with, chances_of, perform, perform_all, on_call, conductor_handler,
}

-- Calls that only send on sockets.
unfoldable pub note : List Call → World → Option World
note [] w = some w
note (sends fd bytes ∷ calls) w = note calls (note_sent fd bytes w)
note (queue_close fd ∷ calls) w = none
note (queue_send_heartbeat fd ∷ calls) w = none

module _ (c : Coders) (chances : ℕ → Chances) (peer : ℤ → Option ℕ) where
  unfoldable pub takes_call : MethodCall (mip_messages c) → SocketData → World → Option World
  unfolding note
  takes_call calls_heartbeat d w = some w
  takes_call (calls_switch_mip pkt) d w = do
    state' ← on_switch_mip d.ptr_data d.fd pkt (chances w.handled).now_ms (peer d.fd) w.state
    some (handled_with state' w)
  takes_call (calls_agent_mip pkt) d w = do
    (state', calls) ← on_agent_mip (chances_of c chances peer w) d.ptr_data d.fd pkt w.state
    note calls (handled_with state' w)
  takes_call (calls_connect_to_switch pkt) d w = some w
  takes_call (calls_agent_connection_token pkt) d w = some w
  takes_call (calls_auth_connect_to_switch pkt) d w = some w
  takes_call (calls_connection_accepted pkt) d w = some w
  takes_call (calls_agent_mrp pkt) d w = do
    state' ← on_agent_mrp d.ptr_data d.fd pkt (chances w.handled).now_ms w.state
    some (handled_with state' w)

  unfoldable pub takes_packet : World → SocketData → Option World
  unfolding takes_call
  takes_packet w d = elim (on_socket_ready (mip_messages c) d) [
    | none ↦ some w
    | some call ↦ takes_call call d w
  ]

  perform_all-note :
      (calls : List Call) (w w' : World) (q : Queue)
      → note calls w ≡ some w'
      → perform_all c chances peer calls w q ≡ some (w', q)
  unfolding note perform_all perform
  perform_all-note [] w w' q e = ground (arith, e)
  perform_all-note (sends fd bytes ∷ calls) w w' q e =
      perform_all-note calls (note_sent fd bytes w) w' q e
  perform_all-note (queue_close fd ∷ calls) w w' q e = absurd (ground (arith, e))
  perform_all-note (queue_send_heartbeat fd ∷ calls) w w' q e = absurd (ground (arith, e))

  on_call-takes :
      (call : MethodCall (mip_messages c)) (d : SocketData) (w w' : World) (q : Queue)
      → takes_call call d w ≡ some w'
      → on_call c chances peer call d w q ≡ some (w', q)
  unfolding takes_call on_call
  on_call-takes calls_heartbeat d w w' q e = ground (arith, e)
  on_call-takes (calls_switch_mip pkt) d w w' q e = ground (arith, e)
  on_call-takes (calls_agent_mip pkt) d w w' q e =
      elim (Option-cases (on_agent_mip (chances_of c chances peer w) d.ptr_data d.fd pkt w.state)) [
        | inl faulty ↦ absurd (ground (arith, e, faulty))
        | inr ((s', calls), done) ↦
            rw done (perform_all-note calls (handled_with s' w) w' q (ground (arith, e, done)))
      ]
  on_call-takes (calls_connect_to_switch pkt) d w w' q e = ground (arith, e)
  on_call-takes (calls_agent_connection_token pkt) d w w' q e = ground (arith, e)
  on_call-takes (calls_auth_connect_to_switch pkt) d w w' q e = ground (arith, e)
  on_call-takes (calls_connection_accepted pkt) d w w' q e = ground (arith, e)
  on_call-takes (calls_agent_mrp pkt) d w w' q e = ground (arith, e)

  pub conductor_handler-TakesQuietly : TakesQuietly (conductor_handler c chances peer) takes_packet
  unfolding TakesQuietly takes_packet conductor_handler
  conductor_handler-TakesQuietly w w' q d e =
      elim (Option-cases (on_socket_ready (mip_messages c) d)) [
        | inl unknown ↦ rw (unknown, conductor_handler) (ground (arith, e, unknown))
        | inr (call, parsed) ↦
            rw (parsed, conductor_handler) (on_call-takes call d w w' q (ground (arith, e, parsed)))
      ]
