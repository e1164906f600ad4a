-- ===== src/Protocol/Header.antt =====
-- src/protocol/header.cpp, src/protocol/types.cpp: the six bytes before each packet.
pub mod Wire
use v_net.Base.{◌∷◌, none, some, Option, List, ℕ, ◌++◌}
use v_net.Host.{ByteOrder, load16, load32, store16, store32}

-- A packet type is any 16-bit value; those that are named are these.
abbrev pub PacketType : Type 0
PacketType = ℕ

abbrev pub heartbeat : PacketType
heartbeat = 0

abbrev pub switch_mip : PacketType
switch_mip = 1

abbrev pub agent_mip : PacketType
agent_mip = 2

abbrev pub connect_to_switch : PacketType
connect_to_switch = 3

abbrev pub agent_connection_token : PacketType
agent_connection_token = 4

abbrev pub auth_connect_to_switch : PacketType
auth_connect_to_switch = 5

abbrev pub connection_accepted : PacketType
connection_accepted = 6

abbrev pub agent_mrp : PacketType
agent_mrp = 7

-- The packed object: both fields in network order.
pub record PacketHeader : Type 0 where
  pub payload_size : ℕ
  pub packet_type : ℕ

abbrev pub packet_header_size : ℕ
packet_header_size = 6

module _ (o : ByteOrder) where
  unfoldable pub ntoh_packet_type : ℕ → PacketType
  ntoh_packet_type type = o.ntohs type

  unfoldable pub hton_packet_type : PacketType → ℕ
  hton_packet_type type = o.htons type

  unfoldable pub get_payload_size : PacketHeader → ℕ
  get_payload_size h = o.ntohl h.payload_size

  unfoldable pub get_packet_type : PacketHeader → PacketType
  unfolding ntoh_packet_type
  get_packet_type h = ntoh_packet_type h.packet_type

  -- `PacketHeader (payload_size, packet_type)`
  unfoldable pub new_header : ℕ → PacketType → PacketHeader
  unfolding hton_packet_type
  new_header payload_size packet_type = record {
    payload_size = o.htonl payload_size;
    packet_type = hton_packet_type packet_type;
  }

  -- The bytes of the object, as `send` and `write_n_bytes` take them.
  unfoldable pub header_bytes : PacketHeader → List ℕ
  header_bytes h = store32 o.host h.payload_size ++ store16 o.host h.packet_type

  -- The object that stands at an address; none if there are too few bytes.
  unfoldable pub header_at : List ℕ → Option PacketHeader
  header_at (b0 ∷ b1 ∷ b2 ∷ b3 ∷ b4 ∷ b5 ∷ rest) =
      some (record { payload_size = load32 o.host b0 b1 b2 b3; packet_type = load16 o.host b4 b5 })
  header_at _ = none
