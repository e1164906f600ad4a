-- ===== src/BlackBox/Ipv4.antt =====
-- src/blackbox/ipv4.cpp and include/vnet/blackbox/ipv4.hpp. A read through `data` beyond the bytes
-- that stand there is a fault; the null pointer is `none`. The `out` parameter is passed through.
pub mod Accept
use v_net.Base.{
  ℕ, ◌+◌, ◌*◌, ◌/◌, ◌%◌, ◌^◌, Bool, true, false, ◌||◌, Option, none, some, List, get_elem?, ltb,
  ◌==◌, nat_eq, not, if◌then◌else◌, ◌>>=◌,
}
use v_net.Host.{Endian, load16, load32}

pub record IPv4Header : Type 0 where
  pub version : ℕ
  pub ihl : ℕ
  pub total_length : ℕ
  pub protocol : ℕ
  pub src_ip : ℕ
  pub dst_ip : ℕ
  pub src_port : ℕ
  pub dst_port : ℕ

abbrev pub proto_icmp : ℕ
proto_icmp = 1

abbrev pub proto_tcp : ℕ
proto_tcp = 6

abbrev pub proto_udp : ℕ
proto_udp = 17

-- `IPv4Header hdr{}`
abbrev pub zero_header : IPv4Header
zero_header = record {
  version = 0;
  ihl = 0;
  total_length = 0;
  protocol = 0;
  src_ip = 0;
  dst_ip = 0;
  src_port = 0;
  dst_port = 0;
}

-- `memcpy(&x, data + i, 2)` and `memcpy(&x, data + i, 4)`.
copy16 : Endian → List ℕ → ℕ → Option ℕ
copy16 e data' i = do b0 ← get_elem? data' i; b1 ← get_elem? data' (i + 1); some (load16 e b0 b1)

copy32 : Endian → List ℕ → ℕ → Option ℕ
copy32 e data' i = do
  b0 ← get_elem? data' i
  b1 ← get_elem? data' (i + 1)
  b2 ← get_elem? data' (i + 2)
  b3 ← get_elem? data' (i + 3)
  some (load32 e b0 b1 b2 b3)

module _ (e : Endian) (bytes : List ℕ) (len : ℕ) where
  parse_ports : ℕ → IPv4Header → Option (Bool × IPv4Header)
  parse_ports ip_header_bytes out = if ltb len (ip_header_bytes + 4) then some (false, out) else do
    src ← copy16 e bytes ip_header_bytes
    dst ← copy16 e bytes (ip_header_bytes + 2)
    some (true, record out { src_port = src; dst_port = dst })

  parse_transport : ℕ → IPv4Header → Option (Bool × IPv4Header)
  unfolding parse_ports
  parse_transport ip_header_bytes out =
      if out.protocol == proto_tcp || out.protocol == proto_udp
      then parse_ports ip_header_bytes out
      else some (true, out)

  parse_addresses : ℕ → IPv4Header → Option (Bool × IPv4Header)
  unfolding parse_transport
  parse_addresses ip_header_bytes out = do
    src ← copy32 e bytes 12
    dst ← copy32 e bytes 16
    parse_transport ip_header_bytes
        (record out { src_ip = src; dst_ip = dst; src_port = 0; dst_port = 0 })

  parse_total : ℕ → IPv4Header → Option (Bool × IPv4Header)
  unfolding parse_addresses
  parse_total ip_header_bytes out = do
    total ← copy16 e bytes 2
    protocol ← get_elem? bytes 9
    hi ← get_elem? bytes 2
    lo ← get_elem? bytes 3
    let out' : IPv4Header = record out { total_length = total; protocol = protocol }
    if ltb len ((hi * 2 ^ 8 + lo) % 2 ^ 16)
        then some (false, out')
        else parse_addresses ip_header_bytes out'

  parse_version : IPv4Header → Option (Bool × IPv4Header)
  unfolding parse_total
  parse_version out = do
    first ← get_elem? bytes 0
    let out' : IPv4Header = record out { version = first / 2 ^ 4 % 2 ^ 4; ihl = first % 2 ^ 4 }
    if not (out'.version == 4)
        then some (false, out')
        else if ltb out'.ihl 5
        then some (false, out')
        else if ltb len (out'.ihl * 4)
        then some (false, out')
        else parse_total (out'.ihl * 4) out'

pub ipv4_parse : Endian → Option (List ℕ) → ℕ → IPv4Header → Option (Bool × IPv4Header)
unfolding parse_version
ipv4_parse e none len out = some (false, out)
ipv4_parse e (some bytes) len out =
    if ltb len 20 then some (false, out) else parse_version e bytes len out
