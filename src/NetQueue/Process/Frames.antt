-- ===== src/NetQueue/Process/Frames.antt =====
-- Streams of frames, cut into chunks in any way.
pub mod Rounds
pub mod Delivery
pub mod Stops
use v_net.Protocol.Header.{PacketType}
use v_net.Protocol.Header.Wire.{wire_header}
use v_net.NetQueue.Element.{NetworkElement, SocketData, TunData, net_buffer_size}
use v_net.NetQueue.Kernel.{
  Incoming, ReadResult, chunk, would_block, failure, signal, hang_up, got, again, read, put_back,
}
use v_net.NetQueue.Process.{◌∷◌, List, length, some, ℕ, Handler}
use v_net.Base.{
  sym, ap, take-append-drop, append_assoc, drop, inr, inl, zero, suc, arith, refl, ◌^◌, ◌⊎◌, [],
  ◌+◌, ◌≤◌, take, ◌++◌, ◌<◌, ◌≡◌,
}

pub record Frame : Type 0 where
  pub packet_type : PacketType
  pub payload : List ℕ

unfoldable pub encode_frame : Frame → List ℕ
encode_frame f = wire_header (length f.payload) f.packet_type ++ f.payload

unfoldable pub encode : List Frame → List ℕ
encode [] = []
encode (f ∷ fs) = encode_frame f ++ encode fs

-- Frames that the buffer of an element holds.
abbrev pub Fits : List Frame → Type 0
Fits [] = Unit {0}
Fits (f ∷ fs) = ((length f.payload + 6 ≤ net_buffer_size) × (f.packet_type < 2 ^ 16)) × Fits fs

-- The script gives bytes only, at least one at a time.
abbrev pub IsChunks : List Incoming → Type 0
IsChunks [] = Unit {0}
IsChunks (chunk [] ∷ s) = ⊥
IsChunks (chunk (b ∷ bs) ∷ s) = IsChunks s
IsChunks (would_block ∷ s) = ⊥
IsChunks (failure ∷ s) = ⊥
IsChunks (signal ∷ s) = ⊥
IsChunks (hang_up ∷ s) = ⊥

abbrev pub stream : List Incoming → List ℕ
stream [] = []
stream (chunk bs ∷ s) = bs ++ stream s
stream (would_block ∷ s) = stream s
stream (failure ∷ s) = stream s
stream (signal ∷ s) = stream s
stream (hang_up ∷ s) = stream s

-- A handler that acts on its own state only.
abbrev pub quiet : {W : Type 0} → (W → SocketData → W) → (W → TunData → W) → Handler W
quiet f g = record {
  on_socket_ready = λ w el d. some (f w d, el);
  on_tun_ready = λ w el d. some (g w d, el);
}

-- What the handler is given for a frame.
abbrev pub data_of : NetworkElement → Frame → SocketData
data_of el f = record {
  ptr_data = el.ptr;
  fd = el.fd;
  packet_type = f.packet_type;
  packet_buffer = f.payload;
  payload_size = length f.payload;
  full_buffer = encode_frame f;
}

unfoldable pub deliver : {W : Type 0} → (W → SocketData → W) → NetworkElement → W → List Frame → W
deliver f el w [] = w
deliver f el w (x ∷ xs) = deliver f el (f w (data_of el x)) xs

put_back-IsChunks : (bs : List ℕ) (s : List Incoming) → IsChunks s → IsChunks (put_back bs s)
put_back-IsChunks [] s h = h
put_back-IsChunks (b ∷ bs) s h = h

pub stream-put_back : (bs : List ℕ) (s : List Incoming) → stream (put_back bs s) ≡ bs ++ stream s
stream-put_back [] s = refl
stream-put_back (b ∷ bs) s = refl

length-take-le {ℓ} : {A : Type ℓ} (n : ℕ) (xs : List A) → length (take n xs) ≤ n
length-take-le zero xs = omega arith
length-take-le (suc n) [] = omega arith
length-take-le (suc n) (x ∷ xs) = omega (arith, length-take-le n xs)

put_back_append : (bs : List ℕ) (s t : List Incoming) → put_back bs s ++ t ≡ put_back bs (s ++ t)
put_back_append [] s t = refl
put_back_append (b ∷ bs) s t = refl

-- What one `read` does to a script of chunks, whatever comes behind it: no chunk is there, or some
-- bytes move over.
pub read-IsChunks :
    (n : ℕ) (s t : List Incoming)
    → 0 < n
    → IsChunks s
    → (s ≡ [])
      ⊎ ((b : ℕ) × (bs : List ℕ) × (s' : List Incoming) × (read n (s ++ t)
            ≡ (got (b ∷ bs), s' ++ t))
          × (length (b ∷ bs) ≤ n)
          × IsChunks s'
          × (stream s ≡ b ∷ (bs ++ stream s')))
unfolding read
read-IsChunks zero s t h c = absurd (omega arith)
read-IsChunks (suc n) [] t h c = inl refl
read-IsChunks (suc n) (chunk [] ∷ s) t h c = absurd c
read-IsChunks (suc n) (chunk (b ∷ bs) ∷ s) t h c = inr (
  b,
  take n bs,
  put_back (drop n bs) s,
  ap (λ x. (got (take (suc n) (b ∷ bs)), x)) (sym (put_back_append (drop n bs) s t)),
  omega (arith, length-take-le n bs),
  put_back-IsChunks (drop n bs) s c,
  rw (
    stream-put_back (drop n bs) s,
    ← append_assoc (take n bs) (drop n bs) (stream s),
    take-append-drop n bs,
  ),
)
read-IsChunks (suc n) (would_block ∷ s) t h c = absurd c
read-IsChunks (suc n) (failure ∷ s) t h c = absurd c
read-IsChunks (suc n) (signal ∷ s) t h c = absurd c
read-IsChunks (suc n) (hang_up ∷ s) t h c = absurd c
