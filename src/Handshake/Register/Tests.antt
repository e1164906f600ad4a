-- ===== src/Handshake/Register/Tests.antt =====
-- A switch that reaches the conductor at its first attempt, and a conductor with no switch yet.
use v_net.Base.{
  ℕ, ℤ, Option, none, some, List, [], ◌∷◌, ◌≡◌, refl, arith, true, nat_eq, pos, Text, ◌%◌, ◌^◌,
}
use v_net.Base.Map.{find}
use v_net.Base.Pointers.{member}
use v_net.Host.{little_host}
use v_net.Protocol.Mip.{mip_messages}
use v_net.Protocol.Samples.{sample_coders}
use v_net.Protocol.Dispatch.{calls_switch_mip, on_socket_ready}
use v_net.Protocol.Dispatch.Roundtrip.{packet_for}
use v_net.NetQueue.Element.{NetworkElement, sck_ready}
use v_net.NetQueue.Process.Frames.{encode_frame, data_of}
use v_net.NetQueue.Write.{takes}
use v_net.Sockets.{Connecting}
use v_net.Sockets.Connect.{enters}
use v_net.Sockets.Held.{held, sent}
use v_net.Conductor.{ConductorState, ConnInfo, on_switch_mip, pick_switch, unknown, switch_conn}
use v_net.Conductor.Pick.{reaches, HasLiveSwitches}
use v_net.Switch.Join.{Surroundings, register}
use v_net.Handshake.Register.{registration, internet, register-serves}

abbrev surroundings : Surroundings
surroundings = record {
  order = little_host;
  coders = sample_coders;
  switch_name = b's' ∷ [];
  auth_key = b'k' ∷ [];
  port = 6000;
  conductor_cfg = record { ip = b'c' ∷ []; port = 5000 };
  connecting = λ mc n. record { resolves = true; socket = pos 3; connects = true };
  to_conductor = takes 99 ∷ takes 99 ∷ [];
  listening = record { socket = pos 4; binds = true; listens = true };
}

abbrev unregistered : ConnInfo
unregistered = record {
  role = unknown;
  name = [];
  auth_key = [];
  network = [];
  sw_port = 0;
  sw_ipv4 = 0;
  fd = pos 6;
  last_hb_sent = 0;
  connected_at_ms = 0;
}

abbrev no_switch : ConductorState
no_switch = record {
  conns = (1, unregistered) ∷ [];
  switches = [];
  agents = [];
  pending_tokens = [];
  rr_index = 0;
}

abbrev element : NetworkElement
element = record {
  state = sck_ready;
  fd = pos 6;
  ptr = 1;
  net_buffer = [];
  write_buffer = [];
  write_buffer_offset = 0;
}

entered : (register surroundings).1 ≡ enters (pos 3) (pos 4)
unfolding register v_net.Sockets.Connect.connect_from v_net.Sockets.connect_to
    v_net.Sockets.Connect.if_sent v_net.Sockets.send_protobuf_packet
    v_net.Protocol.Header.header_bytes v_net.Host.store32 v_net.Host.store16
entered = refl

no_switch-HasLiveSwitches : HasLiveSwitches no_switch
unfolding HasLiveSwitches v_net.Base.Pointers.member
no_switch-HasLiveSwitches p m gone = ground arith

found : find 1 no_switch.conns ≡ some unregistered
unfolding find
found = refl

register-serves_example :
    (sent (register surroundings).0
      ≡ (
        pos 3,
        encode_frame (
            packet_for
              (mip_messages sample_coders)
              (calls_switch_mip (registration (b's' ∷ []) (b'k' ∷ []) 6000))),
      )
        ∷ [])
    × (held [] (register surroundings).0 ≡ pos 4 ∷ pos 3 ∷ [])
    × (on_socket_ready (mip_messages sample_coders) (
          data_of element (
            packet_for
              (mip_messages sample_coders)
              (calls_switch_mip (registration (b's' ∷ []) (b'k' ∷ []) 6000))))
        ≡ some (calls_switch_mip (registration (b's' ∷ []) (b'k' ∷ []) 6000)))
    × ((s' : ConductorState) × (on_switch_mip 1
            (pos 6)
            (registration (b's' ∷ []) (b'k' ∷ []) 6000)
            9
            (some 7)
            no_switch
          ≡ some s')
        × ((sw : ConnInfo) × (find 1 s'.conns ≡ some sw)
            × (sw.role ≡ switch_conn)
            × (sw.name ≡ b's' ∷ [])
            × (sw.auth_key ≡ b'k' ∷ [])
            × (sw.network ≡ internet)
            × (sw.sw_port ≡ 6000 % 2 ^ 16)
            × (sw.fd ≡ pos 6))
        × (member 1 s'.switches ≡ true)
        × ((q k : ℕ) × (pick_switch (b'n' ∷ []) s' ≡ some (some q, record s' { rr_index = k }))
            × (reaches (b'n' ∷ []) s' q ≡ true)))
register-serves_example =
    register-serves surroundings (pos 3) (pos 4) element 1 (pos 6) 9 (some 7) no_switch unregistered
      (b'n' ∷ []) entered (omega arith) no_switch-HasLiveSwitches found (omega arith)
