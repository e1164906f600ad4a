-- ===== src/Switch/Program.antt =====
-- src/switch/setup.cpp on its event queue: `SwitchDispatch` as the handler that
-- `makeNetworkQueueHandler` of src/protocol/dispatch.cpp gives to the queue. The calls of the queue
-- that the handlers make are performed on its table.
pub mod Takes
pub mod Follow
pub mod Deliver
pub mod Admission
pub mod Faults
pub mod Tests
use v_net.Base.{ℕ, Bool, Option, none, some, List, [], ◌∷◌, ◌++◌, ◌>>=◌, ◌&&◌, ◌+◌, nat_eq, int_eq}
use v_net.Host.{ByteOrder}
use v_net.Protocol.Header.{connection_accepted}
use v_net.Protocol.Dispatch.{
  MethodCall, calls_heartbeat, calls_switch_mip, calls_agent_mip, calls_connect_to_switch,
  calls_agent_connection_token, calls_auth_connect_to_switch, calls_connection_accepted,
  calls_agent_mrp, on_socket_ready,
}
use v_net.Protocol.Mip.{Coders, mip_messages}
use v_net.NetQueue.Element.{SocketData}
use v_net.NetQueue.Write.{Outgoing}
use v_net.NetQueue.Queue.{Queue, close}
use v_net.NetQueue.Queue.Send.{Transmission, send_message, send_heartbeat}
use v_net.NetQueue.Queue.Turn.{QueueHandler}
use v_net.Switch
use v_net.Switch.{
  SwitchState, QueueCall, queue_close, queue_send_accepted, queue_send_heartbeat,
  on_agent_connection_token, on_auth_connect_to_switch,
}

-- The program's state, how often it has read the clock, what `write` will do, and what is seen of
-- it: the bytes that were written, and whether every call of `send` returned true.
pub record World : Type 0 where
  pub state : SwitchState
  pub readings : ℕ
  pub writes : List Outgoing
  pub wire : List ℕ
  pub all_sent : Bool

abbrev after_send : World → Transmission → World × Queue
after_send w r = (
  record w { writes = r.script; wire = w.wire ++ r.wire; all_sent = w.all_sent && r.ok },
  r.queue,
)

module _ (o : ByteOrder) (c : Coders) (clock : ℕ → ℕ) where
  -- A call of the queue.
  unfoldable pub perform : QueueCall → World → Queue → Option (World × Queue)
  perform (queue_close fd) w q = do (q', closed) ← close fd q; some (w, q')
  perform (queue_send_accepted fd) w q = do
    r ← send_message o fd connection_accepted (some (c.connection_accepted.serialize tt)) w.writes q
    some (after_send w r)
  perform (queue_send_heartbeat fd) w q = do
    r ← send_heartbeat o fd w.writes q
    some (after_send w r)

  unfoldable pub perform_all : List QueueCall → World → Queue → Option (World × Queue)
  unfolding perform
  perform_all [] w q = some (w, q)
  perform_all (call ∷ calls) w q = do (w', q') ← perform call w q; perform_all calls w' q'

  -- The virtual methods; those that `SwitchDispatch` leaves alone do nothing.
  unfoldable pub on_call :
      MethodCall (mip_messages c) → SocketData → World → Queue → Option (World × Queue)
  unfolding perform_all
  on_call calls_heartbeat d w q = some (w, q)
  on_call (calls_switch_mip pkt) d w q = some (w, q)
  on_call (calls_agent_mip pkt) d w q = some (w, q)
  on_call (calls_connect_to_switch pkt) d w q = some (w, q)
  on_call (calls_agent_connection_token pkt) d w q = some (
    record w {
      state =
          on_agent_connection_token pkt.connection_token pkt.agent_name (clock w.readings) w.state;
      readings = w.readings + 1;
    },
    q,
  )
  on_call (calls_auth_connect_to_switch pkt) d w q = do
    (state', calls) ← on_auth_connect_to_switch d.ptr_data d.fd pkt.connection_token w.state
    perform_all calls (record w { state = state' }) q
  on_call (calls_connection_accepted pkt) d w q = some (w, q)
  on_call (calls_agent_mrp pkt) d w q = some (w, q)

  -- `makeNetworkQueueHandler(&dispatch)`
  unfoldable pub switch_handler : QueueHandler World
  unfolding on_call
  switch_handler = record {
    on_socket_ready = λ w q d. elim (on_socket_ready (mip_messages c) d) [
      | none ↦ some (w, q)
      | some call ↦ on_call call d w q
    ];
    on_tun_ready = λ w q d. some (w, q);
    on_close = λ w q d. do
      state' ← Switch.on_close (some d.ptr_data) w.state
      some (record w { state = state' }, q);
  }
