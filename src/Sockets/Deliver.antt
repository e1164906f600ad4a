-- ===== src/Sockets/Deliver.antt =====
-- A packet that one program sends with src/common/socket_utils.cpp is the one that another reads.
use v_net.Host.{ByteOrder}
use v_net.Protocol.Header.{PacketType, PacketHeader, heartbeat, get_payload_size, get_packet_type}
use v_net.Protocol.Dispatch.{Coder}
use v_net.NetQueue.Kernel.{Incoming}
use v_net.NetQueue.Process.Frames.{Frame, encode, encode_frame, stream}
use v_net.NetQueue.Write.{Outgoing}
use v_net.Sockets.{
  is_success, Ending, fails, waits, succeeds, ends_read, read_n_bytes, send_protobuf_packet, Reply,
  gives, read_header, read_body, skip_heartbeats, skip_heartbeat, read_protobuf_packet,
}
use v_net.Base.{
  nat_eq, true, false, ◌==◌, inr, inl, List-cases, append_assoc, ℕ, zero, suc, List, [], ◌∷◌, ◌++◌,
  ◌≡◌, length, ◌<◌, ◌^◌, some, refl, sym, ap, ◌∙◌, arith, ◌≢◌,
}
use v_net.Sockets.Stream.{
  read_header-stream, send_protobuf_packet-wire, AreHeartbeats, IsSupply, read_n_bytes-stream,
}

module _ {T : Type 0} (o : ByteOrder) (c : Coder T) (type : PacketType)
    (again : PacketHeader → List Incoming → Reply T) (h : PacketHeader) (s : List Incoming) where
  -- A heartbeat whose payload is there is skipped.
  heartbeat_step :
      (bytes : List ℕ) (s' : List Incoming)
      → get_packet_type o h ≡ heartbeat
      → read_n_bytes (get_payload_size o h) s ≡ ends_read succeeds bytes s'
      → skip_heartbeat o c type again h s ≡ read_header o again s'
  unfolding skip_heartbeat
  heartbeat_step bytes s' beat read =
      let same : (get_packet_type o h == heartbeat) ≡ true = ground (arith, beat) in
      rw (same, read) refl

  -- A packet of another type ends the loop.
  packet_step :
      type ≢ heartbeat
      → get_packet_type o h ≡ type
      → skip_heartbeat o c type again h s ≡ read_body o c type h s
  unfolding skip_heartbeat
  packet_step other same =
      let differs : (get_packet_type o h == heartbeat) ≡ false = ground (arith, other, same) in
      rw differs refl

module _ {T : Type 0} (o : ByteOrder) (c : Coder T) (type : PacketType) (m : T) (rest : List ℕ)
    (not_heartbeat : type ≢ heartbeat) (fits : length (c.serialize m) < 2 ^ 32)
    (word : type < 2 ^ 16) where
  abbrev packet : Frame
  packet = record { packet_type = type; payload = c.serialize m }

  -- The packet itself, once its header is read.
  body-stream :
      (h : PacketHeader) (s : List Incoming)
      → IsSupply s
      → stream s ≡ c.serialize m ++ rest
      → get_payload_size o h ≡ length (c.serialize m)
      → get_packet_type o h ≡ type
      → (s' : List Incoming) × (read_body o c type h s ≡ gives m s') × (stream s' ≡ rest)
  unfolding read_body
  body-stream h s i e size same = elim (List-cases (c.serialize m)) [
    | inl none_sent ↦
        let default : c.parse [] ≡ some m = ap c.parse (sym none_sent) ∙ c.parse-serialize m in
        let cleared : c.cleared ≡ m = cc (default, c.parse-nil) in
        (s, ground (arith, same, size, none_sent, cleared), e ∙ ap (λ l. l ++ rest) none_sent)
    | inr (b, bs, some_sent) ↦
        let (s', got, i', e') = read_n_bytes-stream (c.serialize m) rest s i e in
        let sized : read_n_bytes (get_payload_size o h) s ≡ ends_read succeeds (c.serialize m) s' =
          ap (λ n. read_n_bytes n s) size ∙ got in
        let parsed : c.parse (c.serialize m) ≡ some m = c.parse-serialize m in
        let long : (get_payload_size o h == 0) ≡ false = ground (arith, size, some_sent) in
        (s', ground (arith, same, long, sized, parsed), e')
  ]

  -- Heartbeats and then the packet, at the front of the stream.
  front-stream :
      (fs : List Frame) (fuel : ℕ) (s : List Incoming)
      → AreHeartbeats fs
      → length fs < fuel
      → IsSupply s
      → stream s ≡ (encode fs ++ encode_frame packet) ++ rest
      → (s' : List Incoming) × (read_header o (skip_heartbeats o c type fuel) s ≡ gives m s')
        × (stream s' ≡ rest)
  unfolding skip_heartbeats encode
  front-stream fs zero s b l i e = absurd (omega arith)
  front-stream [] (suc fuel) s b l i e =
      let (h, s1, got, i1, e1, size, same) =
        read_header-stream o (skip_heartbeats o c type (suc fuel)) packet rest s fits word i e in
      let (s2, body, e2) = body-stream h s1 i1 e1 size same in
      (
        s2,
        got ∙ packet_step o c type (skip_heartbeats o c type fuel) h s1 not_heartbeat same ∙ body,
        e2,
      )
  front-stream (g ∷ fs) (suc fuel) s b l i e =
      let others = (encode fs ++ encode_frame packet) ++ rest in
      let apart : stream s ≡ encode_frame g ++ others =
        e
        ∙ ap (λ l. l ++ rest) (append_assoc (encode_frame g) (encode fs) (encode_frame packet))
        ∙ append_assoc (encode_frame g) (encode fs ++ encode_frame packet) rest in
      let (h, s1, got, i1, e1, size, same) =
        read_header-stream o (skip_heartbeats o c type (suc fuel)) g others s b.0.1 (omega arith) i
          apart in
      let (s2, skipped, i2, e2) = read_n_bytes-stream g.payload others s1 i1 e1 in
      let sized : read_n_bytes (get_payload_size o h) s1 ≡ ends_read succeeds g.payload s2 =
        ap (λ n. read_n_bytes n s1) size ∙ skipped in
      let (s3, rest_read, e3) = front-stream fs fuel s2 b.1 (omega arith) i2 e2 in
      (
        s3,
        got
            ∙ heartbeat_step o c type (skip_heartbeats o c type fuel) h s1 g.payload s2
                (same ∙ b.0.0) sized
            ∙ rest_read,
        e3,
      )

-- A message whose body is shorter than 2 ^ 32 bytes, and that `send_protobuf_packet` sent
-- successfully under a type that is not the heartbeat's, is what `read_protobuf_packet` gives when
-- its bytes arrive behind any heartbeats, whatever the byte orders of the two hosts, the partial
-- writes and reads and the interrupting signals, with fuel for one more packet than the heartbeats;
-- the bytes behind it stay in the stream.
pub read-send_protobuf_packet :
    {T : Type 0} (o o' : ByteOrder) (c : Coder T) (type : PacketType) (m : T) (fs : List Frame)
    (w : List Outgoing) (fuel : ℕ) (s : List Incoming) (rest : List ℕ)
    → type ≢ heartbeat
    → type < 2 ^ 16
    → length (c.serialize m) < 2 ^ 32
    → AreHeartbeats fs
    → length fs < fuel
    → (send_protobuf_packet o type (some (c.serialize m)) w).ending ≡ succeeds
    → IsSupply s
    → stream s ≡ (encode fs ++ (send_protobuf_packet o type (some (c.serialize m)) w).wire) ++ rest
    → (s' : List Incoming) × (read_protobuf_packet o' c type fuel s ≡ gives m s')
      × (stream s' ≡ rest)
unfolding read_protobuf_packet
read-send_protobuf_packet o o' c type m fs w fuel s rest other word fits beats enough sent i e =
    let frame = send_protobuf_packet-wire o type (c.serialize m) w fits word sent in
    front-stream o' c type m rest other fits word fs fuel s beats enough i
      (e ∙ ap (λ l. (encode fs ++ l) ++ rest) frame)

pub is_success_lem : (e : Ending) → is_success e ≡ true → e ≡ succeeds
is_success_lem succeeds h = refl
is_success_lem fails h = absurd (ground arith)
is_success_lem waits h = absurd (ground arith)
