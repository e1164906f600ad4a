-- ===== src/BlackBox/Ipv4/Accept.antt =====
-- What `ipv4_parse` accepts and what it reads, against the layout of an IPv4 header.
use v_net.Base.{
  ℕ_discrete, ◌⊎◌, ltb, dec_lt, not, ℕ, ◌+◌, ◌*◌, ◌/◌, ◌%◌, ◌^◌, ◌≤◌, ◌<◌, ◌≡◌, refl, Bool, true,
  false, ◌||◌, Option, none, some, Bool-cases, inl, inr, ◌==◌, nat_eq, if◌then◌else◌, List, arith,
  get_or, length, get_elem?-eq-get_or,
}
use v_net.Host.{Endian, load16, load32}
use v_net.BlackBox.Ipv4.{
  IPv4Header, proto_tcp, proto_udp, copy16, copy32, parse_transport, ipv4_parse,
}

abbrev pub byte : List ℕ → ℕ → ℕ
byte bytes i = get_or bytes i 0

abbrev pub word16 : Endian → List ℕ → ℕ → ℕ
word16 e bytes i = load16 e (byte bytes i) (byte bytes (i + 1))

abbrev pub word32 : Endian → List ℕ → ℕ → ℕ
word32 e bytes i =
    load32 e (byte bytes i) (byte bytes (i + 1)) (byte bytes (i + 2)) (byte bytes (i + 3))

copy16_lem :
    (e : Endian) (bytes : List ℕ) (i : ℕ)
    → i + 2 ≤ length bytes
    → copy16 e bytes i ≡ some (word16 e bytes i)
unfolding copy16
copy16_lem e bytes i h =
    rw (
      get_elem?-eq-get_or bytes i 0 (omega arith),
      get_elem?-eq-get_or bytes (i + 1) 0 (omega arith),
    )

copy32_lem :
    (e : Endian) (bytes : List ℕ) (i : ℕ)
    → i + 4 ≤ length bytes
    → copy32 e bytes i ≡ some (word32 e bytes i)
unfolding copy32
copy32_lem e bytes i h = rw (
  get_elem?-eq-get_or bytes i 0 (omega arith),
  get_elem?-eq-get_or bytes (i + 1) 0 (omega arith),
  get_elem?-eq-get_or bytes (i + 2) 0 (omega arith),
  get_elem?-eq-get_or bytes (i + 3) 0 (omega arith),
)

-- The header that the bytes of a packet spell, field by field.
abbrev pub has_ports : List ℕ → Bool
has_ports bytes = byte bytes 9 == proto_tcp || byte bytes 9 == proto_udp

abbrev pub header_bytes : List ℕ → ℕ
header_bytes bytes = byte bytes 0 % 16 * 4

abbrev pub header_of : Endian → List ℕ → IPv4Header
header_of e bytes = record {
  version = byte bytes 0 / 16 % 16;
  ihl = byte bytes 0 % 16;
  total_length = word16 e bytes 2;
  protocol = byte bytes 9;
  src_ip = word32 e bytes 12;
  dst_ip = word32 e bytes 16;
  src_port = if has_ports bytes then word16 e bytes (header_bytes bytes) else 0;
  dst_port = if has_ports bytes then word16 e bytes (header_bytes bytes + 2) else 0;
}

-- What makes `len` bytes a packet that the switch handles.
pub record IsPacket (bytes : List ℕ) (len : ℕ) : Type 0 where
  pub room : 20 ≤ len
  pub version_4 : byte bytes 0 / 16 % 16 ≡ 4
  pub ihl_5 : 5 ≤ byte bytes 0 % 16
  pub options_fit : header_bytes bytes ≤ len
  pub total_fits : (byte bytes 2 * 256 + byte bytes 3) % 2 ^ 16 ≤ len
  pub ports_fit : has_ports bytes ≡ true → header_bytes bytes + 4 ≤ len

-- The parser refuses, without a fault.
abbrev pub Rejects : Option (Bool × IPv4Header) → Type 0
Rejects none = ⊥
Rejects (some (true, h)) = ⊥
Rejects (some (false, h)) = Unit {0}

module _ (e : Endian) (bytes : List ℕ) (len : ℕ) (there : len ≤ length bytes) where
  transport_accepts :
      (out : IPv4Header)
      → out.protocol ≡ byte bytes 9
      → out.src_port ≡ 0
      → out.dst_port ≡ 0
      → (has_ports bytes ≡ true → header_bytes bytes + 4 ≤ len)
      → parse_transport e bytes len (header_bytes bytes) out
        ≡ some (
          true,
          record out {
            src_port = (header_of e bytes).src_port;
            dst_port = (header_of e bytes).dst_port;
          },
        )
  unfolding parse_transport
  transport_accepts out p s d h = elim (Bool-cases (has_ports bytes)) [
    | inl e1 ↦
        let l = copy16_lem e bytes (header_bytes bytes) (omega (arith, h e1)) in
        let r = copy16_lem e bytes (header_bytes bytes + 2) (omega (arith, h e1)) in
        ground (arith, h e1, l, r)
    | inr e1 ↦ ground arith
  ]

  transport-Rejects :
      (out : IPv4Header)
      → out.protocol ≡ byte bytes 9
      → has_ports bytes ≡ true
      → len < header_bytes bytes + 4
      → Rejects (parse_transport e bytes len (header_bytes bytes) out)
  unfolding parse_transport
  transport-Rejects out p s h = ground arith

  -- The header as far as it is known when the transport is looked at.
  abbrev at_transport : IPv4Header
  at_transport = record (header_of e bytes) { src_port = 0; dst_port = 0 }

  -- The parser with its reads done.
  reads :
      (out : IPv4Header) (P : Option (Bool × IPv4Header) → Type 0)
      → 20 ≤ len
      → P (
          if not (byte bytes 0 / 16 % 16 == 4)
          then some
              (false, record out { version = byte bytes 0 / 16 % 16; ihl = byte bytes 0 % 16 })
          else if ltb (byte bytes 0 % 16) 5
          then some
              (false, record out { version = byte bytes 0 / 16 % 16; ihl = byte bytes 0 % 16 })
          else if ltb len (header_bytes bytes)
          then some
              (false, record out { version = byte bytes 0 / 16 % 16; ihl = byte bytes 0 % 16 })
          else if ltb len ((byte bytes 2 * 256 + byte bytes 3) % 2 ^ 16)
          then some (
            false,
            record out {
              version = byte bytes 0 / 16 % 16;
              ihl = byte bytes 0 % 16;
              total_length = word16 e bytes 2;
              protocol = byte bytes 9;
            },
          )
          else parse_transport e bytes len (header_bytes bytes) at_transport)
      → P (ipv4_parse e (some bytes) len out)
  unfolding ipv4_parse
  reads out P h p =
      let big_enough : ltb len 20 ≡ false = ground arith in
      rw
        (
          big_enough,
          get_elem?-eq-get_or bytes 0 0 (omega arith),
          copy16_lem e bytes 2 (omega arith),
          get_elem?-eq-get_or bytes 9 0 (omega arith),
          get_elem?-eq-get_or bytes 2 0 (omega arith),
          get_elem?-eq-get_or bytes 3 0 (omega arith),
          copy32_lem e bytes 12 (omega arith),
          copy32_lem e bytes 16 (omega arith),
        )
        p

  -- A packet is accepted, and the header has the fields that its bytes spell.
  pub ipv4_parse_accepts :
      IsPacket bytes len
      → (out : IPv4Header) → ipv4_parse e (some bytes) len out ≡ some (true, header_of e bytes)
  ipv4_parse_accepts k out =
      reads out (λ r. r ≡ some (true, header_of e bytes)) k.room
        (ground (arith, transport_accepts at_transport refl refl refl k.ports_fit))

  -- Anything else is refused, without a read past the bytes.
  pub ipv4_parse-Rejects :
      ¬ IsPacket bytes len → (out : IPv4Header) → Rejects (ipv4_parse e (some bytes) len out)
  unfolding ipv4_parse
  ipv4_parse-Rejects k out = elim (dec_lt len 20) [
    | yes short ↦ ground arith
    | no long ↦
        reads out Rejects (omega arith) (ground (arith, transport-Rejects at_transport refl))
  ]

-- Whether the bytes are a packet is decidable.
pub IsPacket-cases : (bytes : List ℕ) (len : ℕ) → IsPacket bytes len ⊎ ¬ IsPacket bytes len
IsPacket-cases bytes len = elim (dec_lt len 20) [
  | yes h ↦ inr (λ k. omega arith)
  | no h0 ↦ elim (ℕ_discrete (byte bytes 0 / 16 % 16) 4) [
    | no h ↦ inr (λ k. h k.version_4)
    | yes h1 ↦ elim (dec_lt (byte bytes 0 % 16) 5) [
      | yes h ↦ inr (λ k. omega arith)
      | no h2 ↦ elim (dec_lt len (header_bytes bytes)) [
        | yes h ↦ inr (λ k. omega arith)
        | no h3 ↦ elim (dec_lt len ((byte bytes 2 * 256 + byte bytes 3) % 2 ^ 16)) [
          | yes h ↦ inr (λ k. omega arith)
          | no h4 ↦ elim (Bool-cases (has_ports bytes)) [
            | inr e ↦ inl (record {
              room = omega arith;
              version_4 = h1;
              ihl_5 = omega arith;
              options_fit = omega arith;
              total_fits = omega arith;
              ports_fit = λ p. absurd (ground arith);
            })
            | inl e ↦ elim (dec_lt len (header_bytes bytes + 4)) [
              | yes h ↦ inr (λ k. let room = k.ports_fit e in omega arith)
              | no h5 ↦ inl (record {
                room = omega arith;
                version_4 = h1;
                ihl_5 = omega arith;
                options_fit = omega arith;
                total_fits = omega arith;
                ports_fit = λ p. omega arith;
              })
            ]
          ]
        ]
      ]
    ]
  ]
]
