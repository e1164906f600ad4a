-- ===== src/Protocol/Dispatch/Roundtrip.antt =====
-- What a sender packs arrives at the method for it, through src/protocol/dispatch.cpp.
use v_net.Protocol.Header.{
  heartbeat, switch_mip, agent_mip, connect_to_switch, agent_connection_token,
  auth_connect_to_switch, connection_accepted, agent_mrp,
}
use v_net.Protocol.Dispatch.{
  if_parsed, Coder, Messages, MethodCall, calls_heartbeat, calls_switch_mip, calls_agent_mip,
  calls_connect_to_switch, calls_agent_connection_token, calls_auth_connect_to_switch,
  calls_connection_accepted, calls_agent_mrp, on_socket_ready,
}
use v_net.NetQueue.Element.{NetworkElement}
use v_net.NetQueue.Process.Frames.{Frame, data_of}
use v_net.Base.{Option, none, ◌∙◌, ap, refl, take, [], some, ◌≡◌, arith, take_all, length, ℕ}

-- The packet with which a sender asks for a call.
unfoldable pub packet_for : (m : Messages) → MethodCall m → Frame
packet_for m calls_heartbeat = record { packet_type = heartbeat; payload = [] }
packet_for m (calls_switch_mip x) = record {
  packet_type = switch_mip;
  payload = m.switch_mip_coder.serialize x;
}
packet_for m (calls_agent_mip x) = record {
  packet_type = agent_mip;
  payload = m.agent_mip_coder.serialize x;
}
packet_for m (calls_connect_to_switch x) = record {
  packet_type = connect_to_switch;
  payload = m.connect_to_switch_coder.serialize x;
}
packet_for m (calls_agent_connection_token x) = record {
  packet_type = agent_connection_token;
  payload = m.agent_connection_token_coder.serialize x;
}
packet_for m (calls_auth_connect_to_switch x) = record {
  packet_type = auth_connect_to_switch;
  payload = m.auth_connect_to_switch_coder.serialize x;
}
packet_for m (calls_connection_accepted x) = record {
  packet_type = connection_accepted;
  payload = m.connection_accepted_coder.serialize x;
}
packet_for m (calls_agent_mrp x) = record {
  packet_type = agent_mrp;
  payload = m.agent_mrp_coder.serialize x;
}

-- Parsing a whole payload that was serialized.
parse_payload :
    {T : Type 0} (c : Coder T) (x : T)
    → c.parse (take (length (c.serialize x)) (c.serialize x)) ≡ some x
parse_payload c x =
    ap c.parse (take_all (length (c.serialize x)) (c.serialize x) (omega arith))
    ∙ c.parse-serialize x

parsed :
    {T R : Type 0} (c : Coder T) (call : T → R) (el : NetworkElement) (type : ℕ) (x : T)
    → if_parsed c call (data_of el (record { packet_type = type; payload = c.serialize x }))
      ≡ some (call x)
parsed {T} {R} c call el type x =
    let made : Option T → Option R = λ o. elim o [ none ↦ none | some y ↦ some (call y) ] in
    ap made (parse_payload c x)

-- For each of the eight calls: when the event queue delivers the packet with which a sender asks
-- for it, exactly that method is called, with the message that was sent.
pub on_socket_ready-packet_for :
    (m : Messages) (el : NetworkElement) (call : MethodCall m)
    → on_socket_ready m (data_of el (packet_for m call)) ≡ some call
unfolding on_socket_ready packet_for
on_socket_ready-packet_for m el calls_heartbeat = refl
on_socket_ready-packet_for m el (calls_switch_mip x) =
    parsed m.switch_mip_coder calls_switch_mip el switch_mip x
on_socket_ready-packet_for m el (calls_agent_mip x) =
    parsed m.agent_mip_coder calls_agent_mip el agent_mip x
on_socket_ready-packet_for m el (calls_connect_to_switch x) =
    parsed m.connect_to_switch_coder calls_connect_to_switch el connect_to_switch x
on_socket_ready-packet_for m el (calls_agent_connection_token x) =
    parsed m.agent_connection_token_coder calls_agent_connection_token el agent_connection_token x
on_socket_ready-packet_for m el (calls_auth_connect_to_switch x) =
    parsed m.auth_connect_to_switch_coder calls_auth_connect_to_switch el auth_connect_to_switch x
on_socket_ready-packet_for m el (calls_connection_accepted x) =
    parsed m.connection_accepted_coder calls_connection_accepted el connection_accepted x
on_socket_ready-packet_for m el (calls_agent_mrp x) =
    parsed m.agent_mrp_coder calls_agent_mrp el agent_mrp x
