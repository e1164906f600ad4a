-- ===== src/Protocol/Tests.antt =====
-- Messages that are single numbers, and the dispatch of one.
use v_net.Protocol.Dispatch.{Coder, Messages, calls_agent_mip, on_socket_ready}
use v_net.Protocol.Dispatch.Roundtrip.{packet_for, on_socket_ready-packet_for}
use v_net.NetQueue.Element.{NetworkElement, sck_ready}
use v_net.NetQueue.Process.Frames.{data_of}
use v_net.Base.{[], ◌∷◌, some, none, ◌≡◌, refl, List, ℕ, pos, Option}

abbrev parse_number : List ℕ → Option ℕ
parse_number [] = some 0
parse_number (n ∷ []) = some n
parse_number (n ∷ k ∷ ns) = none

abbrev number_coder : Coder ℕ
number_coder = record {
  serialize = λ n. n ∷ [];
  parse = parse_number;
  parse-serialize = λ n. refl;
  cleared = 0;
  parse-nil = refl;
}

abbrev number_messages : Messages
number_messages = record {
  SwitchMip = ℕ;
  AgentMip = ℕ;
  ConnectToSwitch = ℕ;
  AgentConnectionToken = ℕ;
  AuthConnectToSwitch = ℕ;
  ConnectionAccepted = ℕ;
  AgentMrp = ℕ;
  switch_mip_coder = number_coder;
  agent_mip_coder = number_coder;
  connect_to_switch_coder = number_coder;
  agent_connection_token_coder = number_coder;
  auth_connect_to_switch_coder = number_coder;
  connection_accepted_coder = number_coder;
  agent_mrp_coder = number_coder;
}

abbrev element : NetworkElement
element = record {
  state = sck_ready;
  fd = pos 4;
  ptr = 1;
  net_buffer = [];
  write_buffer = [];
  write_buffer_offset = 0;
}

on_socket_ready-packet_for_example :
    on_socket_ready number_messages
      (data_of element (packet_for number_messages (calls_agent_mip 5)))
    ≡ some (calls_agent_mip 5)
on_socket_ready-packet_for_example =
    on_socket_ready-packet_for number_messages element (calls_agent_mip 5)
