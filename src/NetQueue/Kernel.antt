-- ===== src/NetQueue/Kernel.antt =====
-- What `read` gives a program, from a script of what arrives on the descriptor. The script is the
-- environment's choice: how the bytes are cut, when nothing is there, an error, the end.
use v_net.Base.{zero, drop, suc, [], take, ◌∷◌, List, ℕ}

pub data Incoming : Type 0 where
  chunk : List ℕ → Incoming
  would_block failure signal hang_up : Incoming

-- `got []` is the return value 0; `failed` is -1 with an errno that is not EAGAIN, such as EINTR.
pub data ReadResult : Type 0 where
  got : List ℕ → ReadResult
  again failed : ReadResult

-- What is left of a chunk.
abbrev pub put_back : List ℕ → List Incoming → List Incoming
put_back [] s = s
put_back (b ∷ bs) s = chunk (b ∷ bs) ∷ s

-- `read` on a stream socket for a positive count. At the end of the script nothing is there.
read_some : ℕ → List Incoming → ReadResult × List Incoming
read_some n [] = (again, [])
read_some n (chunk bs ∷ s) = (got (take n bs), put_back (drop n bs) s)
read_some n (would_block ∷ s) = (again, s)
read_some n (failure ∷ s) = (failed, s)
read_some n (signal ∷ s) = (failed, s)
read_some n (hang_up ∷ s) = (got [], hang_up ∷ s)

-- A `read` of 0 bytes returns 0.
unfoldable pub read : ℕ → List Incoming → ReadResult × List Incoming
unfolding read_some
read zero s = (got [], s)
read (suc n) s = read_some (suc n) s

-- `read` on a TUN device: one packet, of which what does not fit is lost.
unfoldable pub read_packet : ℕ → List Incoming → ReadResult × List Incoming
read_packet n [] = (again, [])
read_packet n (chunk bs ∷ s) = (got (take n bs), s)
read_packet n (would_block ∷ s) = (again, s)
read_packet n (failure ∷ s) = (failed, s)
read_packet n (signal ∷ s) = (failed, s)
read_packet n (hang_up ∷ s) = (got [], hang_up ∷ s)
