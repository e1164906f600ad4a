-- ===== src/Sockets/Tests.antt =====
-- A packet sent and read, one at a time, through src/common/socket_utils.cpp.
use v_net.Host.{ByteOrder, little_host, big_host}
use v_net.Protocol.Header
use v_net.Protocol.Mip.{PacketAgentConnectionToken}
use v_net.Protocol.Samples.{sample_coders}
use v_net.NetQueue.Kernel.{Incoming, chunk, signal}
use v_net.NetQueue.Process.Frames.{Frame, encode, stream}
use v_net.NetQueue.Write.{Outgoing, takes, blocks, interrupted}
use v_net.Sockets.{succeeds, send_protobuf_packet, gives, read_protobuf_packet}
use v_net.Sockets.Deliver.{read-send_protobuf_packet}
use v_net.Base.{ℕ, some, List, [], ◌∷◌, ◌++◌, ◌≡◌, refl, arith}

abbrev message : PacketAgentConnectionToken
message = record { agent_name = b'a' ∷ []; connection_token = 7 }

abbrev body : List ℕ
body = sample_coders.agent_connection_token.serialize message

abbrev writes : List Outgoing
writes = takes 3 ∷ blocks ∷ interrupted ∷ takes 9 ∷ takes 9 ∷ []

abbrev beats : List Frame
beats = record { packet_type = Header.heartbeat; payload = [] } ∷ []

abbrev arrivals : List Incoming
arrivals =
    chunk (0 ∷ 0 ∷ 0 ∷ [])
    ∷ signal
    ∷ chunk (0 ∷ 0 ∷ 0 ∷ 0 ∷ 0 ∷ 0 ∷ 2 ∷ [])
    ∷ chunk (0 ∷ 4 ∷ 7 ∷ 97 ∷ 5 ∷ [])
    ∷ []

sent :
    (send_protobuf_packet little_host Header.agent_connection_token (some body) writes).ending
    ≡ succeeds
unfolding send_protobuf_packet Header.header_bytes v_net.Host.store32 v_net.Host.store16
sent = refl

wired :
    (send_protobuf_packet little_host Header.agent_connection_token (some body) writes).wire
    ≡ 0 ∷ 0 ∷ 0 ∷ 2 ∷ 0 ∷ 4 ∷ 7 ∷ 97 ∷ []
unfolding send_protobuf_packet Header.header_bytes v_net.Host.store32 v_net.Host.store16
    Header.new_header
wired = refl

arrived :
    stream arrivals
    ≡ (encode beats
        ++ (send_protobuf_packet little_host Header.agent_connection_token (some body) writes).wire)
      ++ 5 ∷ []
unfolding encode v_net.NetQueue.Process.Frames.encode_frame v_net.Protocol.Header.Wire.wire_header
    v_net.Host.store32 v_net.Host.store16 send_protobuf_packet Header.header_bytes Header.new_header
arrived = refl

read-send_protobuf_packet_example :
    (s' : List Incoming) × (read_protobuf_packet big_host sample_coders.agent_connection_token
        Header.agent_connection_token 2 arrivals
      ≡ gives message s')
    × (stream s' ≡ 5 ∷ [])
read-send_protobuf_packet_example =
    read-send_protobuf_packet little_host big_host sample_coders.agent_connection_token
      Header.agent_connection_token message beats writes 2 arrivals (5 ∷ []) (ground arith)
      (omega arith) (omega arith) ((refl, omega arith), tt) (omega arith) sent tt arrived
