-- ===== src/NetQueue/Process/Frames/Rounds.antt =====
-- One round of the loop in each state that a stream of frames passes through.
use v_net.Host.{ByteOrder, store16, store32}
use v_net.Protocol.Header.{PacketHeader, header_at, get_payload_size, get_packet_type}
use v_net.Protocol.Header.Wire.{
  length-wire_header, wire_header, length-wire_header, header_at_wire, header_at-append,
}
use v_net.NetQueue.Element.{
  NetworkElement, FiniteStateMachine, sck_header, sck_payload, sck_ready, SocketData, TunData,
}
use v_net.NetQueue.Kernel.{Incoming, read}
use v_net.NetQueue.Process.{◌-◌, [], ◌==◌, if◌then◌else◌, length, ℕ, List, Loop, goes_on, round}
use v_net.NetQueue.Process.Frames.{
  ◌⊎◌, ◌<◌, ◌≡◌, Frame, encode_frame, IsChunks, stream, quiet, data_of, read-IsChunks,
}
use v_net.Base.{
  refl, drop, append_assoc, ap, append-nil, ◌∙◌, sym, ◌+◌, some, ◌^◌, length-append, ◌∷◌, inr, inl,
  ◌≤◌, arith, ◌++◌, nat_eq,
}

length-encode_frame : (fr : Frame) → 6 ≤ length (encode_frame fr)
unfolding encode_frame
length-encode_frame fr = omega (
  arith,
  length-append (wire_header (length fr.payload) fr.packet_type) fr.payload,
  length-wire_header (length fr.payload) fr.packet_type,
)

module _ {W : Type 0} (o : ByteOrder) (f : W → SocketData → W) (g : W → TunData → W)
    (el : NetworkElement) where
  abbrev pub loop : FiniteStateMachine → List ℕ → List Incoming → W → Loop W
  loop state buffer s w = record {
    element = record el { state = state; net_buffer = buffer };
    script = s;
    world = w;
  }

  abbrev after_header : List ℕ → FiniteStateMachine
  after_header buffer = if length buffer == 6 then sck_payload else sck_header

  -- What a round that reads chunks leaves, with `t` behind them: no chunk was there, or some bytes
  -- joined the buffer.
  abbrev pub Reads :
      (List ℕ → FiniteStateMachine)
      → FiniteStateMachine
      → List ℕ
      → ℕ
      → List Incoming
      → List Incoming
      → W
      → Type 0
  Reads next state buffer size s t w =
      (s ≡ [])
      ⊎ ((bytes : List ℕ) × (s' : List Incoming) × (round o (quiet f g)
              (loop state buffer (s ++ t) w)
            ≡ goes_on (loop (next (buffer ++ bytes)) (buffer ++ bytes) (s' ++ t) w))
          × (length (buffer ++ bytes) ≤ size)
          × (0 < length bytes)
          × IsChunks s'
          × (stream s ≡ bytes ++ stream s'))

  pub header_round :
      (buffer : List ℕ) (s t : List Incoming) (w : W)
      → length buffer < 6
      → IsChunks s
      → Reads after_header sck_header buffer 6 s t w
  unfolding round
  header_round buffer s t w h c = elim (read-IsChunks (6 - length buffer) s t (omega arith) c) [
    | inl e ↦ inl e
    | inr (b, bs, s', e, l, c', st) ↦
        let joined = length-append buffer (b ∷ bs) in
        inr (b ∷ bs, s', ground (arith, joined), omega (arith, joined), omega arith, c', st)
  ]

  abbrev after_payload : ℕ → List ℕ → FiniteStateMachine
  after_payload size buffer = if length buffer == size then sck_ready else sck_payload

  -- The header in a buffer that holds the start of a frame.
  pub header_in :
      (fr : Frame) (buffer rest tail : List ℕ)
      → length fr.payload < 2 ^ 32
      → fr.packet_type < 2 ^ 16
      → 6 ≤ length buffer
      → buffer ++ rest ≡ encode_frame fr ++ tail
      → (h : PacketHeader) × (header_at o buffer ≡ some h)
        × (get_payload_size o h ≡ length fr.payload)
        × (get_packet_type o h ≡ fr.packet_type)
  unfolding encode_frame
  header_in fr buffer rest tail hn ht h e =
      let (hd, at, n, t) =
        header_at_wire o (length fr.payload) fr.packet_type (fr.payload ++ tail) hn ht in
      (
        hd,
        sym (header_at-append o buffer rest h)
            ∙ ap (header_at o) (e ∙ append_assoc _ fr.payload tail)
            ∙ at,
        n,
        t,
      )

  pub payload_round :
      (fr : Frame) (buffer : List ℕ) (s t : List Incoming) (w : W)
      → (h : PacketHeader) → header_at o buffer ≡ some h
      → get_payload_size o h ≡ length fr.payload
      → length fr.payload + 6 ≤ 66000
      → length buffer < length fr.payload + 6
      → IsChunks s
      → Reads
          (after_payload (length fr.payload + 6))
          sck_payload
          buffer
          (length fr.payload + 6)
          s
          t
          w
  unfolding round
  payload_round fr buffer s t w h at n fits l c =
      elim (read-IsChunks (length fr.payload + 6 - length buffer) s t (omega arith) c) [
        | inl e ↦ inl e
        | inr (b, bs, s', e, l, c', st) ↦
            let joined = length-append buffer (b ∷ bs) in
            inr (b ∷ bs, s', ground (arith, joined), omega (arith, joined), omega arith, c', st)
      ]

  -- A frame with no payload is complete with its header.
  pub empty_payload_round :
      (fr : Frame) (buffer : List ℕ) (s : List Incoming) (w : W)
      → (h : PacketHeader) → header_at o buffer ≡ some h
      → get_payload_size o h ≡ length fr.payload
      → length fr.payload + 6 ≤ 66000
      → length buffer ≡ length fr.payload + 6
      → round o (quiet f g) (loop sck_payload buffer s w) ≡ goes_on (loop sck_ready buffer s w)
  unfolding round read
  empty_payload_round fr buffer s w h at n fits l =
      let nothing : length fr.payload + 6 - length buffer ≡ 0 = omega arith in
      ground (arith, nothing, append-nil buffer)

  pub ready_round :
      (fr : Frame) (s : List Incoming) (w : W)
      → length fr.payload < 2 ^ 32
      → fr.packet_type < 2 ^ 16
      → round o (quiet f g) (loop sck_ready (encode_frame fr) s w)
        ≡ goes_on (loop sck_header [] s (f w (data_of el fr)))
  unfolding round
  ready_round fr s w hn ht =
      let (h, at, n, t) =
        header_in fr (encode_frame fr) [] [] hn ht (length-encode_frame fr) refl in
      let body : drop 6 (encode_frame fr) ≡ fr.payload =
        unfold encode_frame wire_header store32 store16 in refl in
      ground (arith, at, n, t, body)
