-- ===== src/Sockets/Stream.antt =====
-- The bytes that src/common/socket_utils.cpp puts on a socket and takes from one.
use v_net.Host.{ByteOrder}
use v_net.Protocol.Header.{
  PacketType, PacketHeader, heartbeat, header_at, get_payload_size, get_packet_type, header_bytes,
  new_header,
}
use v_net.Protocol.Header.Wire.{wire_header, length-wire_header, header_at_wire, header_bytes_lem}
use v_net.NetQueue.Kernel.{Incoming, chunk, would_block, failure, signal, hang_up, put_back}
use v_net.NetQueue.Process.Frames.{Frame, encode_frame, stream, stream-put_back}
use v_net.NetQueue.Write.{Outgoing, takes, blocks, interrupted, breaks}
use v_net.Sockets.{
  then_write, succeeds, write_n_bytes, ends_read, read_n_bytes, send_protobuf_packet, Reply,
  read_header,
}
use v_net.Base.{
  nat_eq, append_assoc, length-drop, append-nil, ◌%◌, ◌-◌, dec_lt, take-append-drop, ℕ, zero, suc,
  List, [], ◌∷◌, ◌++◌, ◌≡◌, length, take, drop, ◌≤◌, ◌<◌, ◌^◌, some, refl, sym, ap, ◌∙◌, arith,
}

-- When every byte was taken, the bytes on the wire are those given.
write_n_bytes-wire :
    (bytes : List ℕ) (s : List Outgoing)
    → (write_n_bytes bytes s).ending ≡ succeeds
    → (write_n_bytes bytes s).wire ≡ bytes
unfolding write_n_bytes
write_n_bytes-wire [] s h = refl
write_n_bytes-wire (b ∷ bs) [] h = absurd (ground arith)
write_n_bytes-wire (b ∷ bs) (blocks ∷ s) h = write_n_bytes-wire (b ∷ bs) s h
write_n_bytes-wire (b ∷ bs) (interrupted ∷ s) h = write_n_bytes-wire (b ∷ bs) s h
write_n_bytes-wire (b ∷ bs) (breaks ∷ s) h = absurd (ground arith)
write_n_bytes-wire (b ∷ bs) (takes zero ∷ s) h = absurd (ground arith)
write_n_bytes-wire (b ∷ bs) (takes (suc k) ∷ s) h =
    ap (λ xs. b ∷ xs)
      (ap (λ xs. take k bs ++ xs) (write_n_bytes-wire (drop k bs) s h) ∙ take-append-drop k bs)

write_two :
    (xs ys : List ℕ) (s : List Outgoing)
    → (then_write (write_n_bytes xs s) (write_n_bytes ys)).ending ≡ succeeds
    → (then_write (write_n_bytes xs s) (write_n_bytes ys)).wire ≡ xs ++ ys
write_two xs ys s h =
    ground (arith, write_n_bytes-wire xs s, write_n_bytes-wire ys (write_n_bytes xs s).script)

-- The wire of a successful call with a body shorter than 2 ^ 32 bytes is the packet's frame.
pub send_protobuf_packet-wire :
    (o : ByteOrder) (type : PacketType) (body : List ℕ) (s : List Outgoing)
    → length body < 2 ^ 32
    → type < 2 ^ 16
    → (send_protobuf_packet o type (some body) s).ending ≡ succeeds
    → (send_protobuf_packet o type (some body) s).wire
      ≡ encode_frame (record { packet_type = type; payload = body })
unfolding send_protobuf_packet encode_frame
send_protobuf_packet-wire o type body s n t h =
    let size : length body % 2 ^ 32 ≡ length body = omega arith in
    let bytes = header_bytes o (new_header o (length body % 2 ^ 32) type) in
    let header : bytes ≡ wire_header (length body) type =
      ap (λ k. header_bytes o (new_header o k type)) size
      ∙ header_bytes_lem o (length body) type n t in
    write_two bytes body s h ∙ ap (λ l. l ++ body) header

-- Heartbeats, with or without a payload.
abbrev pub AreHeartbeats : List Frame → Type 0
AreHeartbeats [] = Unit {0}
AreHeartbeats (f ∷ fs) =
    ((f.packet_type ≡ heartbeat) × (length f.payload < 2 ^ 32)) × AreHeartbeats fs

-- The script gives bytes, at least one at a time, and signals.
abbrev pub IsSupply : List Incoming → Type 0
IsSupply [] = Unit {0}
IsSupply (chunk [] ∷ s) = ⊥
IsSupply (chunk (b ∷ bs) ∷ s) = IsSupply s
IsSupply (signal ∷ s) = IsSupply s
IsSupply (would_block ∷ s) = ⊥
IsSupply (failure ∷ s) = ⊥
IsSupply (hang_up ∷ s) = ⊥

-- One list cut in two ways.
cut :
    (xs ys bs t : List ℕ)
    → bs ++ t ≡ xs ++ ys
    → length xs ≤ length bs
    → (take (length xs) bs ≡ xs) × (drop (length xs) bs ++ t ≡ ys)
cut [] ys bs t e h = (refl, e)
cut (x ∷ xs) ys [] t e h = absurd (omega arith)
cut (x ∷ xs) ys (b ∷ bs) t e h = ground (arith, cut xs ys bs t)

put_back-IsSupply : (bs : List ℕ) (s : List Incoming) → IsSupply s → IsSupply (put_back bs s)
put_back-IsSupply [] s h = h
put_back-IsSupply (b ∷ bs) s h = h

-- As many bytes as `xs` has are read: they are `xs`, and the rest follows.
pub read_n_bytes-stream :
    (xs ys : List ℕ) (s : List Incoming)
    → IsSupply s
    → stream s ≡ xs ++ ys
    → (s' : List Incoming) × (read_n_bytes (length xs) s ≡ ends_read succeeds xs s')
      × IsSupply s'
      × (stream s' ≡ ys)
unfolding read_n_bytes
read_n_bytes-stream [] ys s i e = (s, refl, i, e)
read_n_bytes-stream (x ∷ xs) ys [] i e = absurd (cc)
read_n_bytes-stream (x ∷ xs) ys (chunk [] ∷ s) i e = absurd i
read_n_bytes-stream (x ∷ xs) ys (chunk (b ∷ bs) ∷ s) i e = elim (dec_lt (length bs) (length xs)) [
  | no enough ↦
      let parts = cut xs ys bs (stream s) (cc) (omega arith) in
      (
        put_back (drop (length xs) bs) s,
        ground (arith, parts),
        put_back-IsSupply (drop (length xs) bs) s i,
        stream-put_back (drop (length xs) bs) s ∙ parts.1,
      )
  | yes more ↦
      let parts = cut bs (stream s) xs ys (cc) (omega arith) in
      let (s', got, i', e') = read_n_bytes-stream (drop (length bs) xs) ys s i (sym parts.1) in
      let whole : bs ++ drop (length bs) xs ≡ xs =
        ap (λ l. l ++ drop (length bs) xs) (sym parts.0) ∙ take-append-drop (length bs) xs in
      let left : read_n_bytes (length xs - length bs) s
          ≡ ends_read succeeds (drop (length bs) xs) s' =
        ap (λ n. read_n_bytes n s) (sym (length-drop (length bs) xs)) ∙ got in
      (s', ground (arith, whole, left), i', e')
]
read_n_bytes-stream (x ∷ xs) ys (would_block ∷ s) i e = absurd i
read_n_bytes-stream (x ∷ xs) ys (failure ∷ s) i e = absurd i
read_n_bytes-stream (x ∷ xs) ys (signal ∷ s) i e = read_n_bytes-stream (x ∷ xs) ys s i e
read_n_bytes-stream (x ∷ xs) ys (hang_up ∷ s) i e = absurd i

-- A frame at the front of the stream: its header is read, and what follows gets the header and a
-- script that begins with the payload.
pub read_header-stream :
    {A : Type 0} (o : ByteOrder) (next : PacketHeader → List Incoming → Reply A) (f : Frame)
    (rest : List ℕ) (s : List Incoming)
    → length f.payload < 2 ^ 32
    → f.packet_type < 2 ^ 16
    → IsSupply s
    → stream s ≡ encode_frame f ++ rest
    → (h : PacketHeader) × (s' : List Incoming) × (read_header o next s ≡ next h s')
      × IsSupply s'
      × (stream s' ≡ f.payload ++ rest)
      × (get_payload_size o h ≡ length f.payload)
      × (get_packet_type o h ≡ f.packet_type)
unfolding read_header encode_frame
read_header-stream o next f rest s n t i e =
    let (h, at, size, type) = header_at_wire o (length f.payload) f.packet_type [] n t in
    let wire = wire_header (length f.payload) f.packet_type in
    let at_start : header_at o wire ≡ some h = ap (header_at o) (sym (append-nil wire)) ∙ at in
    let (s', got, i', e') =
      read_n_bytes-stream wire (f.payload ++ rest) s i (e ∙ append_assoc wire f.payload rest) in
    let six : read_n_bytes 6 s ≡ ends_read succeeds wire s' =
      ap (λ n. read_n_bytes n s) (sym (length-wire_header (length f.payload) f.packet_type))
      ∙ got in
    (h, s', ground (arith, six, at_start), i', e', size, type)
