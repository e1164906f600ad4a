-- ===== src/Switch/Program/Tests.antt =====
-- A switch with the conductor's connection and one agent that has not presented its token yet.
use v_net.Protocol.Header.{PacketHeader, header_at}
use v_net.Protocol.Mip.{mip_messages}
use v_net.Protocol.Dispatch.{calls_auth_connect_to_switch, on_socket_ready}
use v_net.NetQueue.Element.{sck_ready, NetworkElement, sck_header}
use v_net.NetQueue.Process.Relate.{data_for}
use v_net.NetQueue.Queue.Turn
use v_net.Switch.Program.Faults.{unknown_token-faults}
use v_net.Base.{
  ℕ, ℤ, pos, true, false, Option, none, some, List, [], ◌∷◌, ◌++◌, ◌≡◌, ◌⊎◌, refl, arith, nat_eq,
  int_eq, Text,
}
use v_net.Base.Map.{find}
use v_net.Base.Pointers.{member}
use v_net.Host.{little_host}
use v_net.Protocol.Samples.{sample_coders}
use v_net.NetQueue.Kernel.{Incoming, chunk}
use v_net.NetQueue.Write.{takes}
use v_net.NetQueue.Write.Order.{pending, IsBounded}
use v_net.NetQueue.Queue.{Queue}
use v_net.NetQueue.Queue.Sound.{IsSound}
use v_net.NetQueue.Queue.Turn.{process_at, passes}
use v_net.Switch.{ConnInfo, agent_pending, conductor_conn, agent_authenticated}
use v_net.Switch.Program.{World, switch_handler}
use v_net.Switch.Program.Takes.{answer}
use v_net.Switch.Program.Admission.{Brings, notice_frame, token_frame, notice_then_token-admits}

abbrev clock : ℕ → ℕ
clock n = n

abbrev to_conductor : NetworkElement
to_conductor = record {
  state = sck_header;
  fd = pos 4;
  ptr = 10;
  net_buffer = [];
  write_buffer = [];
  write_buffer_offset = 0;
}

abbrev to_agent : NetworkElement
to_agent = record to_conductor { fd = pos 5; ptr = 20 }

abbrev queue : Queue
queue = record {
  elements = (1, to_conductor) ∷ (2, to_agent) ∷ [];
  fd_to_network_element = (pos 4, 1) ∷ (pos 5, 2) ∷ [];
}

abbrev agent : ConnInfo
agent = record { role = agent_pending; name = []; fd = pos 5; last_hb_sent = 0 }

abbrev world : World
world = record {
  state = record {
    conns =
        (10, record { role = conductor_conn; name = []; fd = pos 4; last_hb_sent = 0 })
        ∷ (20, agent)
        ∷ [];
    pending_tokens = [];
    agents = [];
    conductor = some 10;
  };
  readings = 0;
  writes = takes 4 ∷ [];
  wire = [];
  all_sent = true;
}

abbrev name : Text
name = b'a' ∷ []

queue-IsSound : IsSound queue
unfolding IsSound find v_net.Base.Heap.field_at
queue-IsSound = ((λ fd p e. ground (arith, e)), (λ fd p e. ground (arith, e)), (refl, (refl, tt)))

first_found : find 1 queue.elements ≡ some to_conductor
unfolding find
first_found = refl

second_found : find 2 queue.elements ≡ some to_agent
unfolding find
second_found = refl

agent_found : find 20 world.state.conns ≡ some agent
unfolding find
agent_found = refl

empty-IsBounded : (fd : ℤ) (ptr : ℕ) → IsBounded (record to_conductor { fd = fd; ptr = ptr })
unfolding IsBounded
empty-IsBounded fd ptr = (omega arith, omega arith)

abbrev notice_bytes : List Incoming
notice_bytes = chunk (0 ∷ 0 ∷ []) ∷ chunk (0 ∷ 2 ∷ 0 ∷ 4 ∷ 77 ∷ 97 ∷ []) ∷ []

abbrev token_bytes : List Incoming
token_bytes = chunk (0 ∷ 0 ∷ 0 ∷ 1 ∷ 0 ∷ 5 ∷ 77 ∷ []) ∷ []

notice-Brings :
    Brings little_host sample_coders clock 60 notice_bytes
      (notice_frame little_host sample_coders clock 77 name)
unfolding v_net.Protocol.Dispatch.Roundtrip.packet_for v_net.NetQueue.Process.Frames.encode
    v_net.NetQueue.Process.Frames.encode_frame v_net.Protocol.Header.Wire.wire_header
    v_net.Host.store32 v_net.Host.store16
notice-Brings = (tt, ((omega arith, omega arith), tt), refl, omega arith)

token-Brings :
    Brings little_host sample_coders clock 60 token_bytes
      (token_frame little_host sample_coders clock 77)
unfolding v_net.Protocol.Dispatch.Roundtrip.packet_for v_net.NetQueue.Process.Frames.encode
    v_net.NetQueue.Process.Frames.encode_frame v_net.Protocol.Header.Wire.wire_header
    v_net.Host.store32 v_net.Host.store16
token-Brings = (tt, ((omega arith, omega arith), tt), refl, omega arith)

notice_then_token-admits_example :
    (w1 : World) × (q1 : Queue) × (process_at little_host
        (switch_handler little_host sample_coders clock)
        60
        1
        notice_bytes
        to_conductor
        world
        queue
      ≡ passes (w1, q1))
    × ((w2 : World) × (q2 : Queue) × (er2 : NetworkElement) × (process_at little_host
            (switch_handler little_host sample_coders clock)
            60
            2
            token_bytes
            to_agent
            w1
            q1
          ≡ passes (w2, q2))
        × IsSound q2
        × (find 2 q2.elements ≡ some er2)
        × (find 20 w2.state.conns ≡ some (record agent { role = agent_authenticated; name = name }))
        × (member 20 w2.state.agents ≡ true)
        × ((w2.all_sent ≡ false)
            ⊎ (w2.wire ++ pending er2
                ≡ (w1.wire ++ pending to_agent) ++ answer sample_coders clock)))
notice_then_token-admits_example =
    notice_then_token-admits little_host sample_coders clock (omega arith) 77 name 60 1 2
      notice_bytes token_bytes to_conductor to_agent world queue agent queue-IsSound
      (λ e. absurd (omega arith)) (first_found, refl, empty-IsBounded (pos 4) 10)
      (second_found, refl, empty-IsBounded (pos 5) 20) notice-Brings token-Brings agent_found

-- The agent has sent a token of its own invention.
abbrev presenting : NetworkElement
presenting = record to_agent { state = sck_ready; net_buffer = 0 ∷ 0 ∷ 0 ∷ 1 ∷ 0 ∷ 5 ∷ 88 ∷ [] }

abbrev presented : Queue
presented = record queue { elements = (1, to_conductor) ∷ (2, presenting) ∷ [] }

presented-IsSound : IsSound presented
unfolding IsSound find v_net.Base.Heap.field_at
presented-IsSound =
    ((λ fd p e. ground (arith, e)), (λ fd p e. ground (arith, e)), (refl, (refl, tt)))

presenting_found : find 2 presented.elements ≡ some presenting
unfolding find
presenting_found = refl

abbrev auth_header : PacketHeader
auth_header = record { payload_size = 16777216; packet_type = 1280 }

header_found : header_at little_host presenting.net_buffer ≡ some auth_header
unfolding header_at v_net.Host.load32 v_net.Host.load16
header_found = refl

parsed :
    on_socket_ready (mip_messages sample_coders) (data_for little_host presenting auth_header)
    ≡ some (calls_auth_connect_to_switch (record { connection_token = 88 }))
unfolding on_socket_ready v_net.Protocol.Header.get_packet_type
    v_net.Protocol.Header.get_payload_size
parsed = refl

unknown : find 88 world.state.pending_tokens ≡ none
unfolding find
unknown = refl

unknown_token-faults_example :
    process_at little_host
      (switch_handler little_host sample_coders clock)
      3
      2
      []
      presenting
      world
      presented
    ≡ Turn.faults
unknown_token-faults_example =
    unknown_token-faults little_host sample_coders clock 2 2 [] presenting world presented
      auth_header (record { connection_token = 88 }) presented-IsSound presenting_found refl
      header_found parsed unknown
