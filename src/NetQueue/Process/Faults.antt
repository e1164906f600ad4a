-- ===== src/NetQueue/Process/Faults.antt =====
-- Two inputs that the loop of src/netqueue/netqueue.cpp does not withstand: a peer that hangs up
-- inside a payload, and one that announces a payload longer than the buffer.
use v_net.Host.{ByteOrder}
use v_net.Protocol.Header.{PacketHeader, header_at, get_payload_size}
use v_net.NetQueue.Element.{NetworkElement, sck_payload, net_buffer_size}
use v_net.NetQueue.Kernel.{Incoming, hang_up, chunk, read}
use v_net.NetQueue.Process.{faulted, Handler, Loop, goes_on, round, process, unfinished}
use v_net.Base.{
  length-append, take_all, append-nil, ◌-◌, refl, zero, arith, suc, ◌≤◌, ◌+◌, length, ◌<◌, ◌∷◌,
  List, ℕ, some, ◌≡◌,
}

module _ {W : Type 0} (o : ByteOrder) (handler : Handler W) (el : NetworkElement) (buffer : List ℕ)
    (h : PacketHeader) (header : header_at o buffer ≡ some h) where
  -- The loop inside a payload, of which the buffer holds what has come.
  abbrev pub in_the_payload : List Incoming → W → Loop W
  in_the_payload s w = record {
    element = record el { state = sck_payload; net_buffer = buffer };
    script = s;
    world = w;
  }

  hang_up_round :
      (s : List Incoming) (w : W) (k : ℕ)
      → get_payload_size o h + 6 - length buffer ≡ suc k
      → length buffer ≤ net_buffer_size
      → round o handler (in_the_payload (hang_up ∷ s) w) ≡ goes_on (in_the_payload (hang_up ∷ s) w)
  unfolding round read
  hang_up_round s w k partial fits = ground (arith, append-nil buffer, header, partial)

  -- When the peer has hung up before the payload is complete, the loop never ends: however many
  -- rounds are given, it is unfinished and still in the same state.
  pub process_spins :
      (fuel : ℕ) (s : List Incoming) (w : W)
      → length buffer < get_payload_size o h + 6
      → length buffer ≤ net_buffer_size
      → process o handler fuel (in_the_payload (hang_up ∷ s) w)
        ≡ unfinished (in_the_payload (hang_up ∷ s) w)
  unfolding process
  process_spins zero s w partial fits = refl
  process_spins (suc fuel) s w partial fits =
      let step = hang_up_round s w (get_payload_size o h + 5 - length buffer) (omega arith) fits in
      ground (arith, step, process_spins fuel s w partial fits)

  -- When the announced size does not fit the buffer and as many bytes are there, the next `read`
  -- writes past the end of the buffer.
  pub process_overflows :
      (fuel : ℕ) (b : ℕ) (bs : List ℕ) (s : List Incoming) (w : W)
      → net_buffer_size < get_payload_size o h + 6
      → length buffer + length (b ∷ bs) ≡ get_payload_size o h + 6
      → process o handler (suc fuel) (in_the_payload (chunk (b ∷ bs) ∷ s) w) ≡ faulted
  unfolding process round read
  process_overflows fuel b bs s w long there =
      let asked : get_payload_size o h + 6 - length buffer ≡ suc (length bs) = omega arith in
      ground
        (arith, header, asked, take_all (length bs) bs (omega arith), length-append buffer (b ∷ bs))
