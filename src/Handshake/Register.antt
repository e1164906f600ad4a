-- ===== src/Handshake/Register.antt =====
-- The registration of a switch: src/switch/setup.cpp sends it, src/conductor/setup.cpp handles it
-- and then has a switch for the agents of every network.
pub mod Tests
use v_net.Base.{
  ℕ, ℤ, Option, none, some, List, [], ◌∷◌, ◌++◌, ◌≡◌, ◌≢◌, ◌<◌, ◌≤◌, ◌+◌, ◌^◌, ◌%◌, refl, arith,
  true, length, nat_eq, text_eq, ◌==◌, Text, ◌∙◌, ap,
}
use v_net.Base.Map.{find, insert, find-insert}
use v_net.Base.Pointers.{member, member-append}
use v_net.Protocol.Header
use v_net.Protocol.Mip.{mip_messages, PacketSwitchMip}
use v_net.Protocol.Dispatch.{MethodCall, calls_switch_mip, on_socket_ready}
use v_net.Protocol.Dispatch.Roundtrip.{packet_for, on_socket_ready-packet_for}
use v_net.NetQueue.Element.{NetworkElement}
use v_net.NetQueue.Process.Frames.{encode_frame, data_of}
use v_net.Sockets.Connect.{enters}
use v_net.Sockets.Held.{held, sent}
use v_net.Sockets.Stream.{send_protobuf_packet-wire}
use v_net.Conductor.Register.{known, on_switch_mip-lists}
use v_net.Conductor.{
  switch_conn, ConductorState, ConnInfo, on_switch_mip, pick_switch, is_reachable,
}
use v_net.Conductor.Pick.{reaches, HasLiveSwitches, IsChoice, pick_switch-IsChoice}
use v_net.Switch.Join.{Surroundings, register}
use v_net.Switch.Enter.{register-enters}

-- "::internet", the network of a switch that serves any agent.
abbrev pub internet : Text
internet = 58 ∷ 58 ∷ 105 ∷ 110 ∷ 116 ∷ 101 ∷ 114 ∷ 110 ∷ 101 ∷ 116 ∷ []

-- What a switch is to tell the conductor: its name, key and port, and that it serves the whole internet.
abbrev pub registration : Text → Text → ℕ → PacketSwitchMip
registration switch_name auth_key port = record {
  name = switch_name;
  auth_key = auth_key;
  network = internet;
  port = port;
}

-- When a switch with a registration of fewer than 2 ^ 32 bytes reaches its event loop, then all that
-- it sent is one frame on the conductor's socket, and it holds that socket and its listener. The
-- frame leads the conductor to `onSwitchMIP` with the name, the key and the port that the switch was
-- started with, and "::internet" as its network. That handler, on a live connection and with the round
-- robin not so far that it wraps around, stores these four and the role of a switch in the `ConnInfo`
-- of the connection, lists the connection, and gives a state in which `pick_switch` gives the agents
-- of any network a switch that they reach.
pub register-serves :
    (e : Surroundings) (cdt_sock listener : ℤ) (el : NetworkElement) (p : ℕ) (fd : ℤ) (now_ms : ℕ)
    (peer : Option ℕ) (s : ConductorState) (info : ConnInfo) (net : Text)
    → (register e).1 ≡ enters cdt_sock listener
    → length (e.coders.switch_mip.serialize (registration e.switch_name e.auth_key e.port)) < 2 ^ 32
    → HasLiveSwitches s
    → find p s.conns ≡ some info
    → s.rr_index + (length s.switches + 1) ≤ 2 ^ 64
    → (sent (register e).0
        ≡ (
          cdt_sock,
          encode_frame (
              packet_for
                (mip_messages e.coders)
                (calls_switch_mip (registration e.switch_name e.auth_key e.port))),
        )
          ∷ [])
      × (held [] (register e).0 ≡ listener ∷ cdt_sock ∷ [])
      × (on_socket_ready (mip_messages e.coders) (
            data_of el (
              packet_for
                (mip_messages e.coders)
                (calls_switch_mip (registration e.switch_name e.auth_key e.port))))
          ≡ some (calls_switch_mip (registration e.switch_name e.auth_key e.port)))
      × ((s' : ConductorState) × (on_switch_mip p fd
              (registration e.switch_name e.auth_key e.port)
              now_ms
              peer
              s
            ≡ some s')
          × ((sw : ConnInfo) × (find p s'.conns ≡ some sw)
              × (sw.role ≡ switch_conn)
              × (sw.name ≡ e.switch_name)
              × (sw.auth_key ≡ e.auth_key)
              × (sw.network ≡ internet)
              × (sw.sw_port ≡ e.port % 2 ^ 16)
              × (sw.fd ≡ fd))
          × (member p s'.switches ≡ true)
          × ((q k : ℕ) × (pick_switch net s' ≡ some (some q, record s' { rr_index = k }))
              × (reaches net s' q ≡ true)))
unfolding IsChoice packet_for
register-serves e cdt_sock listener el p fd now_ms peer s info net entered short live found fits =
    let pkt = registration e.switch_name e.auth_key e.port in
    let (done, went, both) = register-enters e cdt_sock listener entered in
    let frame =
      send_protobuf_packet-wire e.order Header.switch_mip (e.coders.switch_mip.serialize pkt)
        e.to_conductor short (omega arith) done in
    let (s', handled, live', listed, open_to_all, longer, same, there) =
      on_switch_mip-lists p fd pkt now_ms peer s info refl live found in
    let (q, k, picked, choice) = pick_switch-IsChoice net s' live' (omega arith) (omega arith) in
    (
      went ∙ ap (λ bytes. (cdt_sock, bytes) ∷ []) frame,
      both,
      on_socket_ready-packet_for (mip_messages e.coders) el (calls_switch_mip pkt),
      (
        s',
        handled,
        (known info fd pkt now_ms peer, there, refl, refl, refl, refl, refl, refl),
        listed,
        (q, k, picked, choice.1 p listed (open_to_all net)),
      ),
    )
