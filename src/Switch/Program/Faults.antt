-- ===== src/Switch/Program/Faults.antt =====
-- A token that the switch of src/switch/setup.cpp was not told of, presented on its event queue.
use v_net.Base.{
  inl, inr, Option-cases, ℤ, ℕ, suc, none, some, List, [], ◌∷◌, ◌≡◌, refl, nat_eq, int_eq, arith,
  ◌>>=◌,
}
use v_net.Base.Map.{find, insert}
use v_net.Host.{ByteOrder}
use v_net.Protocol.Header.{PacketHeader, header_at}
use v_net.Protocol.Mip.{Coders, mip_messages, PacketAuthConnectToSwitch}
use v_net.Protocol.Dispatch.{calls_auth_connect_to_switch, on_socket_ready}
use v_net.NetQueue.Element.{NetworkElement, SocketData, sck_ready}
use v_net.NetQueue.Kernel.{Incoming}
use v_net.NetQueue.Process.Relate.{data_for}
use v_net.NetQueue.Queue.{Queue, close}
use v_net.NetQueue.Queue.Sound.{IsSound}
use v_net.NetQueue.Queue.Turn.{process_at}
use v_net.NetQueue.Queue.Turn
use v_net.NetQueue.Queue.Turn.Faults.{ClosesOwn, process_at-ClosesOwn}
use v_net.Switch.{SwitchState, on_auth_connect_to_switch, queue_close}
use v_net.Switch.Program.{World, perform, perform_all, on_call, switch_handler}

auth-unknown :
    (p : ℕ) (fd : ℤ) (token : ℕ) (s : SwitchState)
    → find token s.pending_tokens ≡ none
    → on_auth_connect_to_switch p fd token s ≡ some (s, queue_close fd ∷ [])
unfolding on_auth_connect_to_switch
auth-unknown p fd token s unknown = ground (arith, unknown)

module _ (o : ByteOrder) (c : Coders) (clock : ℕ → ℕ) where
  performed :
      (d : SocketData) (w : World) (q : Queue)
      → perform_all o c clock (queue_close d.fd ∷ []) w q ≡ (close d.fd q >>= λ r. some (w, r.0))
  unfolding perform_all perform
  performed d w q = elim (Option-cases (close d.fd q)) [
    | inl nothing ↦ rw nothing refl
    | inr ((q', fds), done) ↦ rw done refl
  ]

  unknown-ClosesOwn :
      (pkt : PacketAuthConnectToSwitch) (w : World) (q : Queue) (d : SocketData)
      → on_socket_ready (mip_messages c) d ≡ some (calls_auth_connect_to_switch pkt)
      → find pkt.connection_token w.state.pending_tokens ≡ none
      → ClosesOwn (switch_handler o c clock) w q d
  unfolding ClosesOwn switch_handler on_call
  unknown-ClosesOwn pkt w q d parsed unknown =
      let refused = auth-unknown d.ptr_data d.fd pkt.connection_token w.state unknown in
      (w, rw (parsed, switch_handler, refused) (performed d w q))

  -- With the switch's handlers on its event queue and a sound table: when a connection has received a
  -- whole packet with a token that the switch was not told of, `process` uses the element of that
  -- connection after the handler's `close` has deleted it, whatever else arrives and however much
  -- fuel is left.
  pub unknown_token-faults :
      (fuel p : ℕ) (s : List Incoming) (el : NetworkElement) (w : World) (q : Queue)
      (header : PacketHeader) (pkt : PacketAuthConnectToSwitch)
      → IsSound q
      → find p q.elements ≡ some el
      → el.state ≡ sck_ready
      → header_at o el.net_buffer ≡ some header
      → on_socket_ready (mip_messages c) (data_for o el header)
        ≡ some (calls_auth_connect_to_switch pkt)
      → find pkt.connection_token w.state.pending_tokens ≡ none
      → process_at o (switch_handler o c clock) (suc fuel) p s el w q ≡ Turn.faults
  unknown_token-faults fuel p s el w q header pkt sound found ready whole parsed unknown =
      process_at-ClosesOwn o (switch_handler o c clock) fuel p s el w q header sound found ready
        whole
        (unknown-ClosesOwn pkt w (record q { elements = insert p el q.elements })
          (data_for o el header) parsed unknown)
