-- ===== src/Protocol/Header/Wire.antt =====
-- What the header looks like on the wire, and that any host reads what any host wrote.
use v_net.Host.{ByteOrder, big, load16, load32, store16, store32}
use v_net.Protocol.Header.{
  List, ℕ, PacketType, PacketHeader, get_payload_size, get_packet_type, new_header, header_bytes,
  header_at,
}
use v_net.Base.{[], ◌∙◌, ◌∷◌, arith, ◌%◌, ◌/◌, ◌≤◌, ap₂, refl, some, ◌++◌, ◌^◌, ◌≡◌, length, ◌<◌}

-- Six bytes, most significant first.
unfoldable pub wire_header : ℕ → PacketType → List ℕ
wire_header n t = store32 big n ++ store16 big t

pub length-wire_header : (n t : ℕ) → length (wire_header n t) ≡ 6
unfolding wire_header store32 store16
length-wire_header n t = refl

-- On every host the bytes of a header object are the size and then the type, each with its most
-- significant byte first.
pub header_bytes_lem :
    (o : ByteOrder) (n t : ℕ)
    → n < 2 ^ 32
    → t < 2 ^ 16
    → header_bytes o (new_header o n t) ≡ wire_header n t
unfolding header_bytes new_header wire_header
header_bytes_lem o n t hn ht = ap₂ ◌++◌ (o.htonl_bytes n hn) (o.htons_bytes t ht)

ntohl-digits :
    (o : ByteOrder) (n : ℕ)
    → n < 2 ^ 32
    → o.ntohl (load32 o.host (n / 2 ^ 24 % 256) (n / 2 ^ 16 % 256) (n / 2 ^ 8 % 256) (n % 256)) ≡ n
unfolding load32
ntohl-digits o n h =
    o.ntohl_value (n / 2 ^ 24 % 256) (n / 2 ^ 16 % 256) (n / 2 ^ 8 % 256) (n % 256) (omega arith)
      (omega arith) (omega arith) (omega arith)
    ∙ omega arith

ntohs-digits :
    (o : ByteOrder) (t : ℕ) → t < 2 ^ 16 → o.ntohs (load16 o.host (t / 256 % 256) (t % 256)) ≡ t
unfolding load16
ntohs-digits o t h =
    o.ntohs_value (t / 256 % 256) (t % 256) (omega arith) (omega arith) ∙ omega arith

-- A header that one host wrote reads back on every host, whatever bytes follow it.
pub header_at_wire :
    (o : ByteOrder) (n t : ℕ) (rest : List ℕ)
    → n < 2 ^ 32
    → t < 2 ^ 16
    → (h : PacketHeader) × (header_at o (wire_header n t ++ rest) ≡ some h)
      × (get_payload_size o h ≡ n)
      × (get_packet_type o h ≡ t)
unfolding header_at wire_header store32 store16 get_payload_size get_packet_type
header_at_wire o n t rest hn ht = (_, refl, ntohl-digits o n hn, ntohs-digits o t ht)

-- The header is in the first six bytes.
pub header_at-append :
    (o : ByteOrder) (xs ys : List ℕ) → 6 ≤ length xs → header_at o (xs ++ ys) ≡ header_at o xs
unfolding header_at
header_at-append o [] ys h = absurd (omega arith)
header_at-append o (a ∷ []) ys h = absurd (omega arith)
header_at-append o (a ∷ b ∷ []) ys h = absurd (omega arith)
header_at-append o (a ∷ b ∷ c ∷ []) ys h = absurd (omega arith)
header_at-append o (a ∷ b ∷ c ∷ d ∷ []) ys h = absurd (omega arith)
header_at-append o (a ∷ b ∷ c ∷ d ∷ e ∷ []) ys h = absurd (omega arith)
header_at-append o (a ∷ b ∷ c ∷ d ∷ e ∷ f ∷ rest) ys h = refl
