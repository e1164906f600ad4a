-- ===== src/Handshake.antt =====
-- The three-party handshake: src/conductor/setup.cpp assigns a switch, src/agent/setup.cpp reads the
-- assignment and presents the token, src/switch/setup.cpp admits the agent.
pub mod Tests
pub mod Register
use v_net.Base.{
  refl, sym, ap, ◌∙◌, ℤ, ℕ, true, some, List, ◌++◌, ◌≡◌, ◌<◌, ◌^◌, arith, length, nat_eq, Text, [],
  ◌∷◌,
}
use v_net.Host.{ByteOrder}
use v_net.Protocol.Header
use v_net.Protocol.Mip.{mip_messages, PacketAgentConnectionToken, PacketAuthConnectToSwitch}
use v_net.Protocol.Dispatch.{
  MethodCall, calls_agent_connection_token, calls_auth_connect_to_switch, on_socket_ready,
}
use v_net.Protocol.Dispatch.Roundtrip.{packet_for, on_socket_ready-packet_for}
use v_net.NetQueue.Kernel.{Incoming}
use v_net.NetQueue.Element.{NetworkElement}
use v_net.NetQueue.Process.Frames.{Frame, encode, encode_frame, stream, data_of}
use v_net.Sockets.{is_success, gives, read_protobuf_packet}
use v_net.Sockets.Stream.{AreHeartbeats, IsSupply, send_protobuf_packet-wire}
use v_net.Sockets.Deliver.{read-send_protobuf_packet, is_success_lem}
use v_net.Conductor
use v_net.Conductor.{
  push_agent, sends, Chances, ConductorState, PendingTokenInfo, assign_switch, tell_agent,
  notify_switch,
}
use v_net.Conductor.Announce.{
  assigned, announced, assigned_frame, announced_frame, told-wire, assign_switch-announces,
}
use v_net.Agent.{auth_pkt}
use v_net.Switch.{
  on_agent_connection_token, on_auth_connect_to_switch, queue_send_accepted, agent_authenticated,
  SwitchState,
}
use v_net.Switch
use v_net.Conductor.Assign.{assign_switch-success}
use v_net.Base.Map.{find}
use v_net.Base.Pointers.{member}
use v_net.Switch.Admit.{admit}

-- The conductor picked a live switch for an agent and both sends succeeded, with bodies shorter than
-- 2 ^ 32 bytes. Then what it sends is, to the agent, one frame with the switch's name, address and
-- port and the token that was drawn, and after it, to the switch, one frame with the agent's name and
-- the same token; the agent is listed and its token is pending. The agent reads exactly that
-- assignment, behind any heartbeats, with fuel for one more packet than those. The frame at the
-- switch leads to the method for a notice, and the agent's answer to the assignment leads to the
-- method for the authentication; and a switch that handles that notice and then that answer, the
-- latter on any live connection, accepts the connection and admits it under the name that the agent
-- gave to the conductor.
pub assign_switch-admits :
    (c : Chances) (p q : ℕ) (fd : ℤ) (name : Text) (sw : Conductor.ConnInfo) (s : ConductorState)
    (o : ByteOrder) (fuel : ℕ) (fs : List Frame) (t : List Incoming) (rest : List ℕ)
    (el el' : NetworkElement) (now : ℕ) (joiner : ℕ) (joiner_fd : ℤ) (st : SwitchState)
    (info : Switch.ConnInfo)
    → find q s.conns ≡ some sw
    → is_success (tell_agent c sw).ending ≡ true
    → is_success (notify_switch c name).ending ≡ true
    → length (c.coders.connect_to_switch.serialize (assigned sw c.token)) < 2 ^ 32
    → length (c.coders.agent_connection_token.serialize (announced name c.token)) < 2 ^ 32
    → AreHeartbeats fs
    → length fs < fuel
    → IsSupply t
    → stream t ≡ (encode fs ++ assigned_frame c.coders sw c.token) ++ rest
    → find joiner st.conns ≡ some info
    → ((s' : ConductorState) × (assign_switch c p fd name q s
          ≡ some (
            s',
            sends fd (assigned_frame c.coders sw c.token)
                ∷ sends sw.fd (announced_frame c.coders name c.token)
                ∷ [],
          ))
        × (s'.agents ≡ s.agents ++ p ∷ [])
        × (s'.pending_tokens
            ≡ s.pending_tokens
              ++ record {
                agent_name = name;
                switch_name = sw.name;
                created_at_ms = c.later_ms;
                token = c.token;
              }
                ∷ []))
      × ((t' : List Incoming) × (read_protobuf_packet o c.coders.connect_to_switch
              Header.connect_to_switch fuel t
            ≡ gives (assigned sw c.token) t'))
      × ((notified : PacketAgentConnectionToken) × (answer : PacketAuthConnectToSwitch)
          × (on_socket_ready (mip_messages c.coders) (
                data_of el (
                  packet_for
                    (mip_messages c.coders)
                    (calls_agent_connection_token (announced name c.token))))
              ≡ some (calls_agent_connection_token notified))
          × (on_socket_ready (mip_messages c.coders) (
                data_of el' (
                  packet_for
                    (mip_messages c.coders)
                    (calls_auth_connect_to_switch (auth_pkt (assigned sw c.token)))))
              ≡ some (calls_auth_connect_to_switch answer))
          × ((st' : SwitchState) × (on_auth_connect_to_switch joiner joiner_fd
                  answer.connection_token
                  (on_agent_connection_token notified.connection_token notified.agent_name now st)
                ≡ some (st', queue_send_accepted joiner_fd ∷ []))
              × (find joiner st'.conns
                  ≡ some (record info { role = agent_authenticated; name = name }))
              × (member joiner st'.agents ≡ true)))
assign_switch-admits c p q fd name sw s o fuel fs t rest el el' now joiner joiner_fd st info found
      told noticed fits fits' beats enough supply at joined =
    let wire = told-wire c sw fits told in
    let (t', given, left) =
      read-send_protobuf_packet c.order o c.coders.connect_to_switch Header.connect_to_switch
        (assigned sw c.token) fs c.to_agent fuel t rest (ground arith) (omega arith) fits beats
        enough (is_success_lem (tell_agent c sw).ending told) supply
        (at ∙ ap (λ bytes. (encode fs ++ bytes) ++ rest) (sym wire)) in
    (
      (
        push_agent c p name sw s,
        assign_switch-announces c p fd name q sw s found fits told fits' noticed,
        refl,
        refl,
      ),
      (t', given),
      (
        announced name c.token,
        auth_pkt (assigned sw c.token),
        on_socket_ready-packet_for (mip_messages c.coders) el
            (calls_agent_connection_token (announced name c.token)),
        on_socket_ready-packet_for (mip_messages c.coders) el'
            (calls_auth_connect_to_switch (auth_pkt (assigned sw c.token))),
        admit c.token name now joiner joiner_fd st info joined,
      ),
    )
