-- ===== src/Handshake/Tests.antt =====
-- One agent, one switch and the conductor.
use v_net.Host.{little_host, big_host}
use v_net.Protocol.Header
use v_net.Protocol.Mip.{mip_messages, PacketAgentConnectionToken, PacketAuthConnectToSwitch}
use v_net.Protocol.Dispatch.{
  calls_agent_connection_token, calls_auth_connect_to_switch, on_socket_ready,
}
use v_net.Protocol.Dispatch.Roundtrip.{packet_for}
use v_net.Protocol.Samples.{sample_coders}
use v_net.NetQueue.Kernel.{Incoming, chunk}
use v_net.NetQueue.Element.{NetworkElement, sck_ready}
use v_net.NetQueue.Process.Frames.{encode, encode_frame, stream, data_of}
use v_net.NetQueue.Write.{takes}
use v_net.Sockets.{is_success, read_protobuf_packet, gives}
use v_net.Conductor
use v_net.Conductor.{
  Chances, ConductorState, assign_switch, assignment, notice, tell_agent, notify_switch, push_agent,
  sends, switch_conn, agent_conn,
}
use v_net.Switch
use v_net.Switch.{
  SwitchState, agent_pending, agent_authenticated, conductor_conn, on_agent_connection_token,
  on_auth_connect_to_switch, queue_send_accepted,
}
use v_net.Agent.{auth_pkt}
use v_net.Conductor.Announce.{assigned, announced, assigned_frame, announced_frame}
use v_net.Handshake.{assign_switch-admits}
use v_net.Base.{List, pos, Text, true, some, [], ◌∷◌, ◌++◌, ◌≡◌, refl, arith, nat_eq}
use v_net.Base.Map.{find}
use v_net.Base.Pointers.{member}

abbrev sw : Conductor.ConnInfo
sw = record {
  role = switch_conn;
  name = b's' ∷ [];
  auth_key = [];
  network = [];
  sw_port = 6000;
  sw_ipv4 = 9;
  fd = pos 4;
  last_hb_sent = 0;
  connected_at_ms = 0;
}

abbrev conductor : ConductorState
conductor = record {
  conns = (1, sw) ∷ (2, record sw { role = agent_conn; fd = pos 6 }) ∷ [];
  switches = 1 ∷ [];
  agents = [];
  pending_tokens = [];
  rr_index = 0;
}

abbrev chances : Chances
chances = record {
  order = little_host;
  coders = sample_coders;
  now_ms = 10;
  later_ms = 11;
  token = 77;
  to_agent = takes 99 ∷ takes 99 ∷ [];
  to_switch = takes 99 ∷ takes 99 ∷ [];
}

abbrev agent_name : Text
agent_name = b'a' ∷ []

abbrev joiner : Switch.ConnInfo
joiner = record { role = agent_pending; name = []; fd = pos 8; last_hb_sent = 0 }

abbrev switch_state : SwitchState
switch_state = record {
  conns = (5, joiner) ∷ [];
  pending_tokens = [];
  agents = [];
  conductor = some 4;
}

abbrev element : NetworkElement
element = record {
  state = sck_ready;
  fd = pos 8;
  ptr = 5;
  net_buffer = [];
  write_buffer = [];
  write_buffer_offset = 0;
}

abbrev arrivals : List Incoming
arrivals = chunk (0 ∷ 0 ∷ 0 ∷ 4 ∷ 0 ∷ []) ∷ chunk (3 ∷ 9 ∷ 77 ∷ 6000 ∷ 115 ∷ []) ∷ []

switch_found : find 1 conductor.conns ≡ some sw
unfolding find
switch_found = refl

joiner_found : find 5 switch_state.conns ≡ some joiner
unfolding find
joiner_found = refl

told : is_success (tell_agent chances sw).ending ≡ true
unfolding v_net.Sockets.send_protobuf_packet Header.header_bytes v_net.Host.store32
    v_net.Host.store16
told = refl

noticed : is_success (notify_switch chances agent_name).ending ≡ true
unfolding v_net.Sockets.send_protobuf_packet Header.header_bytes v_net.Host.store32
    v_net.Host.store16
noticed = refl

arrived : stream arrivals ≡ (encode [] ++ assigned_frame sample_coders sw 77) ++ []
unfolding encode packet_for encode_frame v_net.Protocol.Header.Wire.wire_header v_net.Host.store32
    v_net.Host.store16
arrived = refl

assign_switch-admits_example :
    ((s' : ConductorState) × (assign_switch chances 2 (pos 6) agent_name 1 conductor
        ≡ some (
          s',
          sends (pos 6) (assigned_frame sample_coders sw 77)
              ∷ sends (pos 4) (announced_frame sample_coders agent_name 77)
              ∷ [],
        ))
      × (s'.agents ≡ [] ++ 2 ∷ [])
      × (s'.pending_tokens
          ≡ []
            ++ record {
              agent_name = agent_name;
              switch_name = b's' ∷ [];
              created_at_ms = 11;
              token = 77;
            }
              ∷ []))
    × ((t' : List Incoming) × (read_protobuf_packet big_host chances.coders.connect_to_switch
            Header.connect_to_switch 1 arrivals
          ≡ gives (assigned sw 77) t'))
    × ((notified : PacketAgentConnectionToken) × (answer : PacketAuthConnectToSwitch)
        × (on_socket_ready (mip_messages sample_coders) (
              data_of element (
                packet_for
                  (mip_messages sample_coders)
                  (calls_agent_connection_token (announced agent_name 77))))
            ≡ some (calls_agent_connection_token notified))
        × (on_socket_ready (mip_messages sample_coders) (
              data_of element (
                packet_for
                  (mip_messages sample_coders)
                  (calls_auth_connect_to_switch (auth_pkt (assigned sw 77)))))
            ≡ some (calls_auth_connect_to_switch answer))
        × ((st' : SwitchState) × (on_auth_connect_to_switch 5 (pos 8) answer.connection_token (
                on_agent_connection_token notified.connection_token notified.agent_name 0
                  switch_state)
              ≡ some (st', queue_send_accepted (pos 8) ∷ []))
            × (find 5 st'.conns
                ≡ some (record joiner { role = agent_authenticated; name = agent_name }))
            × (member 5 st'.agents ≡ true)))
assign_switch-admits_example =
    assign_switch-admits chances 2 1 (pos 6) agent_name sw conductor big_host 1 [] arrivals []
      element element 0 5 (pos 8) switch_state joiner switch_found told noticed (omega arith)
      (omega arith) tt (omega arith) tt arrived joiner_found
