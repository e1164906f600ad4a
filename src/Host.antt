-- ===== src/Host.antt =====
-- The representation of `uint16_t` and `uint32_t` objects in the host's memory, which `memcpy` and
-- the packed `PacketHeader` of protocol/header.hpp expose, and the conversions of <arpa/inet.h>.
use v_net.Base.{ℕ, ◌+◌, ◌*◌, ◌/◌, ◌%◌, ◌^◌, ◌<◌, ◌≡◌, refl, ap₂, List, [], ◌∷◌, arith}

pub data Endian : Type 0 where
  little big : Endian

-- The value of the object whose bytes are given, lowest address first.
unfoldable pub load16 : Endian → ℕ → ℕ → ℕ
load16 little b0 b1 = b0 + 256 * b1
load16 big b0 b1 = 256 * b0 + b1

unfoldable pub load32 : Endian → ℕ → ℕ → ℕ → ℕ → ℕ
load32 little b0 b1 b2 b3 = b0 + 2 ^ 8 * b1 + 2 ^ 16 * b2 + 2 ^ 24 * b3
load32 big b0 b1 b2 b3 = 2 ^ 24 * b0 + 2 ^ 16 * b1 + 2 ^ 8 * b2 + b3

-- The bytes of an object, lowest address first.
unfoldable pub store16 : Endian → ℕ → List ℕ
store16 little x = x % 256 ∷ x / 256 % 256 ∷ []
store16 big x = x / 256 % 256 ∷ x % 256 ∷ []

unfoldable pub store32 : Endian → ℕ → List ℕ
store32 little x = x % 256 ∷ x / 2 ^ 8 % 256 ∷ x / 2 ^ 16 % 256 ∷ x / 2 ^ 24 % 256 ∷ []
store32 big x = x / 2 ^ 24 % 256 ∷ x / 2 ^ 16 % 256 ∷ x / 2 ^ 8 % 256 ∷ x % 256 ∷ []

-- `htons`, `htonl` and their inverses, with what <arpa/inet.h> documents of them: the converted
-- object has its most significant byte first.
pub record ByteOrder : Type 0 where
  pub host : Endian
  pub htons : ℕ → ℕ
  pub htonl : ℕ → ℕ
  pub ntohs : ℕ → ℕ
  pub ntohl : ℕ → ℕ
  pub htons_bytes : (x : ℕ) → x < 2 ^ 16 → store16 host (htons x) ≡ store16 big x
  pub htonl_bytes : (x : ℕ) → x < 2 ^ 32 → store32 host (htonl x) ≡ store32 big x
  pub ntohs_value : (b0 b1 : ℕ) → b0 < 256 → b1 < 256 → ntohs (load16 host b0 b1) ≡ load16 big b0 b1
  pub ntohl_value :
      (b0 b1 b2 b3 : ℕ)
      → b0 < 256
      → b1 < 256
      → b2 < 256
      → b3 < 256
      → ntohl (load32 host b0 b1 b2 b3) ≡ load32 big b0 b1 b2 b3

-- A big-endian host converts nothing.
abbrev id_order : ℕ → ℕ
id_order x = x

abbrev pub big_host : ByteOrder
big_host = record {
  host = big;
  htons = id_order;
  htonl = id_order;
  ntohs = id_order;
  ntohl = id_order;
  htons_bytes = λ x h. refl;
  htonl_bytes = λ x h. refl;
  ntohs_value = λ b0 b1 h0 h1. refl;
  ntohl_value = λ b0 b1 b2 b3 h0 h1 h2 h3. refl;
}

-- A little-endian host reverses the bytes.
abbrev pub swap16 : ℕ → ℕ
swap16 x = x / 256 % 256 + 256 * (x % 256)

abbrev pub swap32 : ℕ → ℕ
swap32 x =
    x / 2 ^ 24 % 256 + 2 ^ 8 * (x / 2 ^ 16 % 256) + 2 ^ 16 * (x / 2 ^ 8 % 256) + 2 ^ 24 * (x % 256)

pub swap16_bytes : (x : ℕ) → x < 2 ^ 16 → store16 little (swap16 x) ≡ store16 big x
unfolding store16
swap16_bytes x h = ap₂ (λ a b. a ∷ b ∷ []) (omega arith) (omega arith)

digits32 :
    (a b c d x : ℕ)
    → a < 256
    → b < 256
    → c < 256
    → d < 256
    → x ≡ a + 2 ^ 8 * b + 2 ^ 16 * c + 2 ^ 24 * d
    → (x % 256 ≡ a) × (x / 2 ^ 8 % 256 ≡ b) × (x / 2 ^ 16 % 256 ≡ c) × (x / 2 ^ 24 % 256 ≡ d)
digits32 a b c d x ha hb hc hd e = omega arith

pub swap32_bytes : (x : ℕ) → x < 2 ^ 32 → store32 little (swap32 x) ≡ store32 big x
unfolding store32
swap32_bytes x h = ground (
  arith,
  digits32 (x / 2 ^ 24 % 256) (x / 2 ^ 16 % 256) (x / 2 ^ 8 % 256) (x % 256) (swap32 x)
      (omega arith) (omega arith) (omega arith) (omega arith) refl,
)

pub swap16_value :
    (b0 b1 : ℕ) → b0 < 256 → b1 < 256 → swap16 (load16 little b0 b1) ≡ load16 big b0 b1
unfolding load16
swap16_value b0 b1 h0 h1 = omega arith

pub swap32_value :
    (b0 b1 b2 b3 : ℕ)
    → b0 < 256
    → b1 < 256
    → b2 < 256
    → b3 < 256
    → swap32 (load32 little b0 b1 b2 b3) ≡ load32 big b0 b1 b2 b3
unfolding load32
swap32_value b0 b1 b2 b3 h0 h1 h2 h3 = omega (arith, digits32 b0 b1 b2 b3 _ h0 h1 h2 h3 refl)

abbrev pub little_host : ByteOrder
little_host = record {
  host = little;
  htons = swap16;
  htonl = swap32;
  ntohs = swap16;
  ntohl = swap32;
  htons_bytes = swap16_bytes;
  htonl_bytes = swap32_bytes;
  ntohs_value = swap16_value;
  ntohl_value = swap32_value;
}
