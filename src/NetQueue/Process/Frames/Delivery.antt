-- ===== src/NetQueue/Process/Frames/Delivery.antt =====
-- The loop delivers exactly the frames of its stream.
use v_net.Host.{ByteOrder}
use v_net.Protocol.Header.Wire.{wire_header, length-wire_header}
use v_net.NetQueue.Element.{
  FiniteStateMachine, NetworkElement, sck_header, sck_payload, sck_ready, SocketData, TunData,
}
use v_net.NetQueue.Kernel.{Incoming, read}
use v_net.NetQueue.Process.{
  [], suc, List, length, ℕ, Handler, Loop, goes_on, returns, round, process, finished,
}
use v_net.NetQueue.Process.Frames.{
  ◌++◌, ◌<◌, ◌≡◌, Frame, encode_frame, encode, Fits, IsChunks, stream, quiet, deliver,
}
use v_net.NetQueue.Process.Frames.Rounds.{
  loop, header_round, header_in, payload_round, empty_payload_round, ready_round,
}
use v_net.Base.{
  ℕ_discrete, inr, append-nil, subst, ap, append_assoc, inl, sym, zero, ◌∙◌, length-append, refl,
  ◌≤◌, arith, ◌*◌, ◌∷◌, ◌+◌,
}

append_split {ℓ} :
    {A : Type ℓ} (xs xs' ys ys' : List A)
    → length xs ≡ length xs'
    → xs ++ ys ≡ xs' ++ ys'
    → (xs ≡ xs') × (ys ≡ ys')
append_split [] [] ys ys' h e = (refl, e)
append_split [] (x ∷ xs') ys ys' h e = absurd (omega arith)
append_split (x ∷ xs) [] ys ys' h e = absurd (omega arith)
append_split (x ∷ xs) (x' ∷ xs') ys ys' h e =
    let tails : xs ++ ys ≡ xs' ++ ys' = cc in
    let rest = append_split xs xs' ys ys' (omega arith) tails in (cc (rest.0), rest.1)

length-encode_frame : (x : Frame) → length (encode_frame x) ≡ length x.payload + 6
unfolding encode_frame
length-encode_frame x = omega (
  arith,
  length-append (wire_header (length x.payload) x.packet_type) x.payload,
  length-wire_header (length x.payload) x.packet_type,
)

-- Fewer than six bytes with nothing behind them are the start of no frame.
nothing_left :
    (buffer : List ℕ) (fs : List Frame)
    → length buffer < 6
    → buffer ++ [] ≡ encode fs
    → (buffer ≡ []) × (fs ≡ [])
unfolding encode
nothing_left buffer [] h e = (sym (append-nil buffer) ∙ e, refl)
nothing_left buffer (x ∷ xs) h e = absurd (
    omega (
      arith,
      ap length e,
      length-append buffer [],
      length-append (encode_frame x) (encode xs),
      length-encode_frame x,
    ))

first_frame :
    (buffer rest : List ℕ) (fs : List Frame)
    → 6 ≤ length buffer
    → buffer ++ rest ≡ encode fs
    → (x : Frame) × (xs : List Frame) × (fs ≡ x ∷ xs)
unfolding encode
first_frame buffer rest [] h e = absurd (omega (arith, ap length e, length-append buffer rest))
first_frame buffer rest (x ∷ xs) h e = (x, xs, refl)

-- Bytes that move from the stream into the buffer.
moved :
    (buffer bytes rest whole total : List ℕ)
    → buffer ++ whole ≡ total
    → whole ≡ bytes ++ rest
    → (buffer ++ bytes) ++ rest ≡ total
moved buffer bytes rest whole total e st =
    append_assoc buffer bytes rest ∙ ap (λ y. buffer ++ y) (sym st) ∙ e

module _ {W : Type 0} (o : ByteOrder) (handler : Handler W) where
  process_goes_on :
      (fuel : ℕ) (l l' : Loop W)
      → round o handler l ≡ goes_on l'
      → process o handler (suc fuel) l ≡ process o handler fuel l'
  unfolding process
  process_goes_on fuel l l' e = ground arith

  process-returns :
      (fuel : ℕ) (l l' : Loop W)
      → round o handler l ≡ returns l'
      → process o handler (suc fuel) l ≡ finished l'
  unfolding process
  process-returns fuel l l' e = ground arith

module _ {W : Type 0} (o : ByteOrder) (f : W → SocketData → W) (g : W → TunData → W)
    (el : NetworkElement) (t t' : List Incoming) (state : FiniteStateMachine)
    (last : (fuel : ℕ) (w : W)
      → 1 < fuel
      → process o (quiet f g) fuel (loop o f g el sck_header [] t w)
        ≡ finished (loop o f g el state [] t' w)) where
  -- The loop ends with the frames delivered, where what comes behind them leads to.
  abbrev Delivers : ℕ → Loop W → W → List Frame → Type 0
  Delivers fuel l w fs =
      process o (quiet f g) fuel l ≡ finished (loop o f g el state [] t' (deliver f el w fs))

  mutual
    unfolding encode deliver

    in_header-Delivers :
        (fuel : ℕ) (buffer : List ℕ) (s : List Incoming) (w : W) (fs : List Frame)
        → length buffer < 6
        → IsChunks s
        → Fits fs
        → buffer ++ stream s ≡ encode fs
        → 4 * length (stream s) + 1 < fuel
        → Delivers fuel (loop o f g el sck_header buffer (s ++ t) w) w fs
    in_header-Delivers zero buffer s w fs h c z e m = absurd (omega arith)
    in_header-Delivers (suc fuel) buffer s w fs h c z e m =
        elim (header_round o f g el buffer s t w h c) [
          | inl dry ↦
              let (b, n) =
                nothing_left buffer fs h (subst (λ r. buffer ++ stream r ≡ encode fs) dry e) in
              rw (dry, b, n) (last (suc fuel) w (omega arith))
          | inr (bytes, s', go, len, pos', c', st) ↦
              let e' = moved buffer bytes (stream s') (stream s) (encode fs) e st in
              let less : length (stream s) ≡ length bytes + length (stream s') =
                ap length st ∙ length-append bytes (stream s') in
              elim (ℕ_discrete (length (buffer ++ bytes)) 6) [
                | yes six ↦
                    let (x, xs, split) =
                      first_frame (buffer ++ bytes) (stream s') fs (omega arith) e' in
                    let to_payload : round o (quiet f g)
                          (loop o f g el sck_header buffer (s ++ t) w)
                        ≡ goes_on (loop o f g el sck_payload (buffer ++ bytes) (s' ++ t) w) =
                      ground arith in
                    subst
                      (λ q. Delivers (suc fuel) (loop o f g el sck_header buffer (s ++ t) w) w q)
                      (sym split)
                      (process_goes_on o (quiet f g) fuel _ _ to_payload
                        ∙ in_payload-Delivers fuel (buffer ++ bytes) s' w x xs (omega arith)
                            (omega arith) c' (subst Fits split z)
                            (subst (λ q. (buffer ++ bytes) ++ stream s' ≡ encode q) split e')
                            (omega arith))
                | no more ↦
                    let to_header : round o (quiet f g) (loop o f g el sck_header buffer (s ++ t) w)
                        ≡ goes_on (loop o f g el sck_header (buffer ++ bytes) (s' ++ t) w) =
                      ground arith in
                    process_goes_on o (quiet f g) fuel _ _ to_header
                    ∙ in_header-Delivers fuel (buffer ++ bytes) s' w fs (omega arith) c' z e'
                        (omega arith)
              ]
        ]

    in_payload-Delivers :
        (fuel : ℕ) (buffer : List ℕ) (s : List Incoming) (w : W) (x : Frame) (xs : List Frame)
        → 6 ≤ length buffer
        → length buffer ≤ length x.payload + 6
        → IsChunks s
        → Fits (x ∷ xs)
        → buffer ++ stream s ≡ encode_frame x ++ encode xs
        → 4 * length (stream s) + 3 < fuel
        → Delivers fuel (loop o f g el sck_payload buffer (s ++ t) w) w (x ∷ xs)
    in_payload-Delivers zero buffer s w x xs h l c z e m = absurd (omega arith)
    in_payload-Delivers (suc fuel) buffer s w x xs h l c z e m =
        let (hd, at, n, ty) =
          header_in o f g el x buffer (stream s) (encode xs) (omega arith) z.0.1 h e in
        elim (ℕ_discrete (length buffer) (length x.payload + 6)) [
          | yes full ↦
              let parts =
                append_split buffer (encode_frame x) (stream s) (encode xs)
                  (full ∙ sym (length-encode_frame x)) e in
              process_goes_on o (quiet f g) fuel _ _
                (empty_payload_round o f g el x buffer (s ++ t) w hd at n z.0.0 full)
              ∙ in_ready-Delivers fuel buffer s w x xs parts.0 c z parts.1 (omega arith)
          | no short ↦ elim (payload_round o f g el x buffer s t w hd at n z.0.0 (omega arith) c) [
            | inl dry ↦ absurd (
                omega (
                  arith,
                  ap length (subst (λ r. buffer ++ stream r ≡ encode_frame x ++ encode xs) dry e),
                  length-append buffer [],
                  length-append (encode_frame x) (encode xs),
                  length-encode_frame x,
                ))
            | inr (bytes, s', go, len, pos', c', st) ↦
                let e' =
                  moved buffer bytes (stream s') (stream s) (encode_frame x ++ encode xs) e st in
                let less : length (stream s) ≡ length bytes + length (stream s') =
                  ap length st ∙ length-append bytes (stream s') in
                elim (ℕ_discrete (length (buffer ++ bytes)) (length x.payload + 6)) [
                  | yes full ↦
                      let parts =
                        append_split (buffer ++ bytes) (encode_frame x) (stream s') (encode xs)
                          (full ∙ sym (length-encode_frame x)) e' in
                      let to_ready : round o (quiet f g)
                            (loop o f g el sck_payload buffer (s ++ t) w)
                          ≡ goes_on (loop o f g el sck_ready (buffer ++ bytes) (s' ++ t) w) =
                        ground arith in
                      process_goes_on o (quiet f g) fuel _ _ to_ready
                      ∙ in_ready-Delivers fuel (buffer ++ bytes) s' w x xs parts.0 c' z parts.1
                          (omega arith)
                  | no more ↦
                      let to_payload : round o (quiet f g)
                            (loop o f g el sck_payload buffer (s ++ t) w)
                          ≡ goes_on (loop o f g el sck_payload (buffer ++ bytes) (s' ++ t) w) =
                        ground arith in
                      process_goes_on o (quiet f g) fuel _ _ to_payload
                      ∙ in_payload-Delivers fuel (buffer ++ bytes) s' w x xs
                          (omega (arith, length-append buffer bytes)) len c' z e' (omega arith)
                ]
          ]
        ]

    in_ready-Delivers :
        (fuel : ℕ) (buffer : List ℕ) (s : List Incoming) (w : W) (x : Frame) (xs : List Frame)
        → buffer ≡ encode_frame x
        → IsChunks s
        → Fits (x ∷ xs)
        → stream s ≡ encode xs
        → 4 * length (stream s) + 2 < fuel
        → Delivers fuel (loop o f g el sck_ready buffer (s ++ t) w) w (x ∷ xs)
    in_ready-Delivers zero buffer s w x xs b c z e m = absurd (omega arith)
    in_ready-Delivers (suc fuel) buffer s w x xs b c z e m = rw b (
        process_goes_on o (quiet f g) fuel _ _
          (ready_round o f g el x (s ++ t) w (omega arith) z.0.1)
        ∙ in_header-Delivers fuel [] s _ xs (omega arith) c z.1 e (omega arith))

  -- The frames of a stream with `t` behind it.
  pub process-stops :
      (fuel : ℕ) (s : List Incoming) (w : W) (fs : List Frame)
      → IsChunks s
      → Fits fs
      → stream s ≡ encode fs
      → 4 * length (stream s) + 1 < fuel
      → process o (quiet f g) fuel (loop o f g el sck_header [] (s ++ t) w)
        ≡ finished (loop o f g el state [] t' (deliver f el w fs))
  process-stops fuel s w fs c z e m = in_header-Delivers fuel [] s w fs (omega arith) c z e m

module _ {W : Type 0} (o : ByteOrder) (f : W → SocketData → W) (g : W → TunData → W)
    (el : NetworkElement) where
  nothing_more :
      (fuel : ℕ) (w : W)
      → 1 < fuel
      → process o (quiet f g) fuel (loop o f g el sck_header [] [] w)
        ≡ finished (loop o f g el sck_header [] [] w)
  unfolding process round read
  nothing_more zero w m = absurd (omega arith)
  nothing_more (suc fuel) w m = refl

  -- However the bytes of a sequence of frames are cut into chunks, the loop, started between two
  -- frames, ends without a fault once nothing more is there, having called the handler for exactly
  -- those frames in order, each with its own type, size and payload, and stands between two frames
  -- again. Every frame fits the buffer, and the handler leaves the element alone. Four rounds for
  -- each byte of the stream, and two more, are enough.
  pub process_delivers :
      (fuel : ℕ) (s : List Incoming) (w : W) (fs : List Frame)
      → IsChunks s
      → Fits fs
      → stream s ≡ encode fs
      → 4 * length (stream s) + 1 < fuel
      → process o (quiet f g) fuel (loop o f g el sck_header [] s w)
        ≡ finished (loop o f g el sck_header [] [] (deliver f el w fs))
  process_delivers fuel s w fs c t e m =
      ap (λ x. process o (quiet f g) fuel (loop o f g el sck_header [] x w)) (sym (append-nil s))
      ∙ process-stops o f g el [] [] sck_header nothing_more fuel s w fs c t e m
