-- ===== src/Conductor/Program/Faults.antt =====
-- An agent that src/conductor/setup.cpp has no switch for, on its event queue.
use v_net.Base.{
  ℕ, ℤ, suc, Option, some, List, [], ◌∷◌, ◌≡◌, refl, nat_eq, int_eq, ◌>>=◌, inl, inr, Option-cases,
}
use v_net.Base.Map.{find, insert}
use v_net.Host.{ByteOrder}
use v_net.Protocol.Header.{PacketHeader, header_at}
use v_net.Protocol.Mip.{Coders, mip_messages, PacketAgentMip}
use v_net.Protocol.Dispatch.{calls_agent_mip, on_socket_ready}
use v_net.NetQueue.Element.{NetworkElement, SocketData, sck_ready}
use v_net.NetQueue.Kernel.{Incoming}
use v_net.NetQueue.Process.Relate.{data_for}
use v_net.NetQueue.Queue.{Queue, close}
use v_net.NetQueue.Queue.Sound.{IsSound}
use v_net.NetQueue.Queue.Turn.{process_at}
use v_net.NetQueue.Queue.Turn
use v_net.NetQueue.Queue.Turn.Faults.{ClosesOwn, process_at-ClosesOwn}
use v_net.Conductor.{ConnInfo, ConductorState, Chances, queue_close, on_agent_mip, pick_switch}
use v_net.Conductor.Program.{
  World, handled_with, chances_of, perform, perform_all, on_call, conductor_handler,
}
use v_net.Conductor.Program.Assigns.{with_agent}

mip-refused :
    (c : Chances) (p : ℕ) (fd : ℤ) (pkt : PacketAgentMip) (s : ConductorState) (info : ConnInfo)
    → find p s.conns ≡ some info
    → s.switches ≡ []
    → on_agent_mip c p fd pkt s ≡ some (with_agent c p fd pkt info s, queue_close fd ∷ [])
unfolding on_agent_mip pick_switch
mip-refused c p fd pkt s info found empty = rw (found, empty) refl

module _ (o : ByteOrder) (c : Coders) (chances : ℕ → Chances) (peer : ℤ → Option ℕ) where
  performed :
      (d : SocketData) (w : World) (q : Queue)
      → perform_all c chances peer (queue_close d.fd ∷ []) w q
        ≡ (close d.fd q >>= λ r. some (w, r.0))
  unfolding perform_all perform
  performed d w q = elim (Option-cases (close d.fd q)) [
    | inl nothing ↦ rw nothing refl
    | inr ((q', fds), done) ↦ rw done refl
  ]

  no_switch-ClosesOwn :
      (pkt : PacketAgentMip) (w : World) (q : Queue) (d : SocketData) (info : ConnInfo)
      → on_socket_ready (mip_messages c) d ≡ some (calls_agent_mip pkt)
      → find d.ptr_data w.state.conns ≡ some info
      → w.state.switches ≡ []
      → ClosesOwn (conductor_handler c chances peer) w q d
  unfolding ClosesOwn conductor_handler on_call
  no_switch-ClosesOwn pkt w q d info parsed found empty =
      let ch = chances_of c chances peer w in
      let w' = handled_with (with_agent ch d.ptr_data d.fd pkt info w.state) w in
      let refused = mip-refused ch d.ptr_data d.fd pkt w.state info found empty in
      (w', rw (parsed, conductor_handler, refused) (performed d w' q))

  -- With the conductor's handlers on its event queue and a sound table: when a connection that has its
  -- `ConnInfo` has received the whole first packet of an agent while no switch is listed, `process`
  -- uses the element of that connection after the handler's `close` has deleted it, whatever else
  -- arrives and however much fuel is left.
  pub no_switch-faults :
      (fuel p : ℕ) (s : List Incoming) (el : NetworkElement) (w : World) (q : Queue)
      (header : PacketHeader) (pkt : PacketAgentMip) (info : ConnInfo)
      → IsSound q
      → find p q.elements ≡ some el
      → el.state ≡ sck_ready
      → header_at o el.net_buffer ≡ some header
      → on_socket_ready (mip_messages c) (data_for o el header) ≡ some (calls_agent_mip pkt)
      → find el.ptr w.state.conns ≡ some info
      → w.state.switches ≡ []
      → process_at o (conductor_handler c chances peer) (suc fuel) p s el w q ≡ Turn.faults
  no_switch-faults fuel p s el w q header pkt info sound found ready whole parsed known empty =
      process_at-ClosesOwn o (conductor_handler c chances peer) fuel p s el w q header sound found
        ready whole
        (no_switch-ClosesOwn pkt w (record q { elements = insert p el q.elements })
          (data_for o el header) info parsed known empty)
