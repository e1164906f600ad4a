-- ===== src/NetQueue/Process/Frames/Stops.antt =====
-- How the reads of `NetQueue::process` come to an end behind whole frames.
use v_net.Base.{ℕ, List, [], ◌∷◌, ◌++◌, ◌≡◌, ◌<◌, ◌+◌, ◌*◌, refl, arith, length, zero, suc}
use v_net.Host.{ByteOrder}
use v_net.NetQueue.Element.{
  NetworkElement, FiniteStateMachine, sck_header, sck_eof, sck_error, SocketData, TunData,
}
use v_net.NetQueue.Kernel.{Incoming, would_block, failure, signal, hang_up, read}
use v_net.NetQueue.Process.{process, round, finished}
use v_net.NetQueue.Process.Frames.{Frame, Fits, IsChunks, stream, encode, quiet, deliver}
use v_net.NetQueue.Process.Frames.Rounds.{loop}
use v_net.NetQueue.Process.Frames.Delivery.{process-stops}

-- Nothing more is there, `read` would block, the peer has hung up, `read` fails, or a signal
-- interrupts it.
pub data Stop : Type 0 where
  dries pauses hangs_up fails signalled : Stop

-- The script behind the frames.
abbrev pub behind : Stop → List Incoming → List Incoming
behind dries rest = []
behind pauses rest = would_block ∷ rest
behind hangs_up rest = hang_up ∷ rest
behind fails rest = failure ∷ rest
behind signalled rest = signal ∷ rest

-- What is left of it.
abbrev pub unread : Stop → List Incoming → List Incoming
unread dries rest = []
unread pauses rest = rest
unread hangs_up rest = hang_up ∷ rest
unread fails rest = rest
unread signalled rest = rest

-- The connection stands between two packets, has ended, or is broken.
abbrev pub state_at : Stop → FiniteStateMachine
state_at dries = sck_header
state_at pauses = sck_header
state_at hangs_up = sck_eof
state_at fails = sck_error
state_at signalled = sck_error

module _ {W : Type 0} (o : ByteOrder) (f : W → SocketData → W) (g : W → TunData → W)
    (el : NetworkElement) where
  last_rounds :
      (stop : Stop) (rest : List Incoming) (fuel : ℕ) (w : W)
      → 1 < fuel
      → process o (quiet f g) fuel (loop o f g el sck_header [] (behind stop rest) w)
        ≡ finished (loop o f g el (state_at stop) [] (unread stop rest) w)
  unfolding process round read
  last_rounds stop rest zero w m = absurd (omega arith)
  last_rounds stop rest (suc zero) w m = absurd (omega arith)
  last_rounds dries rest (suc (suc fuel)) w m = refl
  last_rounds pauses rest (suc (suc fuel)) w m = refl
  last_rounds hangs_up rest (suc (suc fuel)) w m = refl
  last_rounds fails rest (suc (suc fuel)) w m = refl
  last_rounds signalled rest (suc (suc fuel)) w m = refl

  -- The loop delivers the frames in front of it, and then stops so.
  pub process-stops_at :
      (stop : Stop) (rest : List Incoming) (fuel : ℕ) (s : List Incoming) (w : W) (fs : List Frame)
      → IsChunks s
      → Fits fs
      → stream s ≡ encode fs
      → 4 * length (stream s) + 1 < fuel
      → process o (quiet f g) fuel (loop o f g el sck_header [] (s ++ behind stop rest) w)
        ≡ finished (loop o f g el (state_at stop) [] (unread stop rest) (deliver f el w fs))
  process-stops_at stop rest =
      process-stops o f g el (behind stop rest) (unread stop rest) (state_at stop)
        (last_rounds stop rest)
