-- ===== src/Agent/Program.antt =====
-- src/agent/setup.cpp on its event queue: `AgentDispatch` as the handler that
-- `makeNetworkQueueHandler` of src/protocol/dispatch.cpp gives to the queue, and the event loop.
pub mod Closing
pub mod Beats
pub mod Loop
pub mod Enter
pub mod Tests
use v_net.Base.{ℕ, ℤ, Option, none, some, List, [], ◌∷◌, ◌≡◌, ◌≢◌, ◌>>=◌, nat_eq, int_eq}
use v_net.Base.Map.{find}
use v_net.Host.{ByteOrder}
use v_net.Protocol.Mip.{Coders, mip_messages}
use v_net.Protocol.Dispatch.{MethodCall, on_socket_ready}
use v_net.NetQueue.Element.{NetworkElement, CloseData}
use v_net.NetQueue.Queue.{Queue}
use v_net.NetQueue.Queue.Send.{send_heartbeat}
use v_net.NetQueue.Queue.Turn.{
  Pass, passes, or_fault, then_pass, QueueHandler, EpollEvent, wait_and_process,
}
use v_net.NetQueue.Queue.Turn.Batch.{Batch, events}
use v_net.NetQueue.Write.{Outgoing}
use v_net.Agent.{AgentState, on_close, send_heartbeats}

-- The agent's state, or none once a deleted `ConnInfo` was used.
abbrev pub World : Type 0
World = Option AgentState

-- The virtual methods: `AgentDispatch` has only the empty one for heartbeats.
pub on_call : {c : Coders} → MethodCall (mip_messages c) → World → Queue → Option (World × Queue)
on_call call w q = some (w, q)

abbrev pub closed_in : World → CloseData → World
closed_in w d = w >>= λ s. on_close (some d.ptr_data) s

-- `makeNetworkQueueHandler(&dispatch)`
unfoldable pub agent_handler : Coders → QueueHandler World
unfolding on_call
agent_handler c = record {
  on_socket_ready = λ w q d. elim (on_socket_ready (mip_messages c) d) [
    | none ↦ some (w, q)
    | some call ↦ on_call call w q
  ];
  on_tun_ready = λ w q d. some (w, q);
  on_close = λ w q d. some (closed_in w d, q);
}

-- The calls of `queue.send_heartbeat`.
unfoldable pub beat_all : ByteOrder → List ℤ → List Outgoing → Queue → Option Queue
beat_all o [] writes q = some q
beat_all o (fd ∷ fds) writes q = do
  t ← send_heartbeat o fd writes q
  beat_all o fds t.script t.queue

-- One turn of the event loop: what `epoll_wait` stored, unless it failed, with the fuel for the reads, the time for the
-- heartbeats, and what `write` does to them.
pub record Round : Type 0 where
  pub fuel : ℕ
  pub polled : Option Batch
  pub now : ℕ
  pub writes : List Outgoing

abbrev pub stored : Option Batch → Option (List EpollEvent)
stored none = none
stored (some b) = some (events b)

unfoldable pub agent_round :
    ByteOrder → Coders → Round → AgentState → Queue → Pass (AgentState × Queue)
unfolding beat_all
agent_round o c r s q =
    then_pass (wait_and_process o (agent_handler c) r.fuel (stored r.polled) (some s) q) λ x.
      or_fault x.0 λ s1.
        or_fault (send_heartbeats r.now s1)
          λ y. or_fault (beat_all o y.1 r.writes x.1) λ q'. passes (y.0, q')

unfoldable pub agent_loop :
    ByteOrder → Coders → List Round → AgentState → Queue → Pass (AgentState × Queue)
unfolding agent_round
agent_loop o c [] s q = passes (s, q)
agent_loop o c (r ∷ rs) s q = then_pass (agent_round o c r s q) λ x. agent_loop o c rs x.0 x.1

-- Every element of the table has its `ConnInfo`, which is live, and no two have the same.
unfoldable pub IsLinked : Queue → AgentState → Type 0
IsLinked q s =
    ((r : ℕ) (el : NetworkElement) → find r q.elements ≡ some el → find el.ptr s.conns ≢ none)
    × ((r r' : ℕ) (el el' : NetworkElement)
        → find r q.elements ≡ some el
        → find r' q.elements ≡ some el'
        → el.ptr ≡ el'.ptr
        → r ≡ r')
