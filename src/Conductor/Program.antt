-- ===== src/Conductor/Program.antt =====
-- src/conductor/setup.cpp on its event queue: `ConductorDispatch` as the handler that
-- `makeNetworkQueueHandler` of src/protocol/dispatch.cpp gives to the queue. The calls that the
-- handlers make are performed: on a socket directly, or on the queue's table.
pub mod Takes
pub mod Assigns
pub mod Faults
pub mod Tests
use v_net.Base.{ℕ, ℤ, Option, none, some, List, [], ◌∷◌, ◌++◌, ◌>>=◌, ◌+◌, nat_eq, int_eq}
use v_net.Protocol.Dispatch.{
  MethodCall, calls_heartbeat, calls_switch_mip, calls_agent_mip, calls_connect_to_switch,
  calls_agent_connection_token, calls_auth_connect_to_switch, calls_connection_accepted,
  calls_agent_mrp, on_socket_ready,
}
use v_net.Protocol.Mip.{Coders, mip_messages}
use v_net.NetQueue.Element.{SocketData}
use v_net.NetQueue.Write.{Outgoing}
use v_net.NetQueue.Queue.{Queue, close}
use v_net.NetQueue.Queue.Send.{send_heartbeat}
use v_net.NetQueue.Queue.Turn.{QueueHandler}
use v_net.Conductor
use v_net.Conductor.{
  ConductorState, Chances, Call, sends, queue_close, queue_send_heartbeat, on_switch_mip,
  on_agent_mip, on_agent_mrp,
}

-- The program's state, how many handlers have been called, what `write` will do in the queue, and the
-- bytes that went out, each with its socket.
pub record World : Type 0 where
  pub state : ConductorState
  pub handled : ℕ
  pub writes : List Outgoing
  pub sent : List (ℤ × List ℕ)

-- Bytes that were sent.
abbrev pub note_sent : ℤ → List ℕ → World → World
note_sent fd bytes w = record w { sent = w.sent ++ (fd, bytes) ∷ [] }

-- A handler that made no call.
abbrev pub handled_with : ConductorState → World → World
handled_with s w = record w { state = s; handled = w.handled + 1 }

-- What each call of a handler is given, and what `getpeername` stores for a socket.
module _ (c : Coders) (chances : ℕ → Chances) (peer : ℤ → Option ℕ) where
  abbrev pub chances_of : World → Chances
  chances_of w = record (chances w.handled) { coders = c }

  -- A call of a socket helper or of the queue.
  unfoldable pub perform : Call → World → Queue → Option (World × Queue)
  perform (sends fd bytes) w q = some (note_sent fd bytes w, q)
  perform (queue_close fd) w q = do (q', closed) ← close fd q; some (w, q')
  perform (queue_send_heartbeat fd) w q = do
    r ← send_heartbeat (chances w.handled).order fd w.writes q
    some (note_sent fd r.wire (record w { writes = r.script }), r.queue)

  unfoldable pub perform_all : List Call → World → Queue → Option (World × Queue)
  unfolding perform
  perform_all [] w q = some (w, q)
  perform_all (call ∷ calls) w q = do (w', q') ← perform call w q; perform_all calls w' q'

  -- The virtual methods; those that `ConductorDispatch` leaves alone do nothing.
  unfoldable pub on_call :
      MethodCall (mip_messages c) → SocketData → World → Queue → Option (World × Queue)
  unfolding perform_all
  on_call calls_heartbeat d w q = some (w, q)
  on_call (calls_switch_mip pkt) d w q = do
    state' ← on_switch_mip d.ptr_data d.fd pkt (chances w.handled).now_ms (peer d.fd) w.state
    some (handled_with state' w, q)
  on_call (calls_agent_mip pkt) d w q = do
    (state', calls) ← on_agent_mip (chances_of w) d.ptr_data d.fd pkt w.state
    perform_all calls (handled_with state' w) q
  on_call (calls_connect_to_switch pkt) d w q = some (w, q)
  on_call (calls_agent_connection_token pkt) d w q = some (w, q)
  on_call (calls_auth_connect_to_switch pkt) d w q = some (w, q)
  on_call (calls_connection_accepted pkt) d w q = some (w, q)
  on_call (calls_agent_mrp pkt) d w q = do
    state' ← on_agent_mrp d.ptr_data d.fd pkt (chances w.handled).now_ms w.state
    some (handled_with state' w, q)

  -- `makeNetworkQueueHandler(&dispatch)`
  unfoldable pub conductor_handler : QueueHandler World
  unfolding on_call
  conductor_handler = record {
    on_socket_ready = λ w q d. elim (on_socket_ready (mip_messages c) d) [
      | none ↦ some (w, q)
      | some call ↦ on_call call d w q
    ];
    on_tun_ready = λ w q d. some (w, q);
    on_close = λ w q d. do
      state' ← Conductor.on_close (some d.ptr_data) w.state
      some (record w { state = state' }, q);
  }
