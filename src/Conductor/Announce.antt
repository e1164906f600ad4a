-- ===== src/Conductor/Announce.antt =====
-- What an agent and its switch are to be told when src/conductor/setup.cpp has chosen the switch.
use v_net.Base.{
  ℕ, ℤ, some, [], ◌∷◌, ◌∙◌, ap, List, Text, ◌≡◌, ◌<◌, ◌^◌, true, length, arith, nat_eq,
}
use v_net.Protocol.Dispatch.{MethodCall, calls_connect_to_switch, calls_agent_connection_token}
use v_net.Protocol.Mip.{Coders, mip_messages, PacketConnectToSwitch, PacketAgentConnectionToken}
use v_net.Protocol.Dispatch.Roundtrip.{packet_for}
use v_net.NetQueue.Process.Frames.{encode_frame}
use v_net.Protocol.Header
use v_net.Sockets.{is_success}
use v_net.Sockets.Stream.{send_protobuf_packet-wire}
use v_net.Sockets.Deliver.{is_success_lem}
use v_net.Base.Map.{find}
use v_net.Conductor.Assign.{assign_switch-success}
use v_net.Conductor.{
  ConductorState, assign_switch, push_agent, sends, ConnInfo, Chances, tell_agent, notify_switch,
}

-- Where the agent finds its switch, and the token to present there.
abbrev pub assigned : ConnInfo → ℕ → PacketConnectToSwitch
assigned sw token = record {
  switch_name = sw.name;
  switch_ipv4 = sw.sw_ipv4;
  connection_token = token;
  switch_port = sw.sw_port;
}

-- Which agent the switch is to expect with that token.
abbrev pub announced : Text → ℕ → PacketAgentConnectionToken
announced agent_name token = record { agent_name = agent_name; connection_token = token }

-- The bytes of the frame for a method.
abbrev pub frame : (c : Coders) → MethodCall (mip_messages c) → List ℕ
frame c call = encode_frame (packet_for (mip_messages c) call)

abbrev pub assigned_frame : Coders → ConnInfo → ℕ → List ℕ
assigned_frame c sw token = frame c (calls_connect_to_switch (assigned sw token))

abbrev pub announced_frame : Coders → Text → ℕ → List ℕ
announced_frame c name token = frame c (calls_agent_connection_token (announced name token))

-- The conductor tells them exactly that.
pub told-wire :
    (c : Chances) (sw : ConnInfo)
    → length (c.coders.connect_to_switch.serialize (assigned sw c.token)) < 2 ^ 32
    → is_success (tell_agent c sw).ending ≡ true
    → (tell_agent c sw).wire ≡ assigned_frame c.coders sw c.token
unfolding packet_for
told-wire c sw fits told =
    send_protobuf_packet-wire c.order Header.connect_to_switch
      (c.coders.connect_to_switch.serialize (assigned sw c.token)) c.to_agent fits (omega arith)
      (is_success_lem (tell_agent c sw).ending told)

noticed-wire :
    (c : Chances) (name : Text)
    → length (c.coders.agent_connection_token.serialize (announced name c.token)) < 2 ^ 32
    → is_success (notify_switch c name).ending ≡ true
    → (notify_switch c name).wire ≡ announced_frame c.coders name c.token
unfolding packet_for
noticed-wire c name fits noticed =
    send_protobuf_packet-wire c.order Header.agent_connection_token
      (c.coders.agent_connection_token.serialize (announced name c.token)) c.to_switch fits
      (omega arith) (is_success_lem (notify_switch c name).ending noticed)

pub assign_switch-announces :
    (c : Chances) (p : ℕ) (fd : ℤ) (name : Text) (q : ℕ) (sw : ConnInfo) (s : ConductorState)
    → find q s.conns ≡ some sw
    → length (c.coders.connect_to_switch.serialize (assigned sw c.token)) < 2 ^ 32
    → is_success (tell_agent c sw).ending ≡ true
    → length (c.coders.agent_connection_token.serialize (announced name c.token)) < 2 ^ 32
    → is_success (notify_switch c name).ending ≡ true
    → assign_switch c p fd name q s
      ≡ some (
        push_agent c p name sw s,
        sends fd (assigned_frame c.coders sw c.token)
            ∷ sends sw.fd (announced_frame c.coders name c.token)
            ∷ [],
      )
assign_switch-announces c p fd name q sw s found fits told fits' noticed =
    let s' = push_agent c p name sw s in
    assign_switch-success c p fd name q sw s found told noticed
    ∙ ap (λ bytes. some (s', sends fd bytes ∷ sends sw.fd (notify_switch c name).wire ∷ []))
        (told-wire c sw fits told)
    ∙ ap
        (λ bytes. some (s', sends fd (assigned_frame c.coders sw c.token) ∷ sends sw.fd bytes ∷ []))
        (noticed-wire c name fits' noticed)
