-- ===== src/NetQueue/Transfer.antt =====
-- From one end of a connection to the other: the sending side and the receiving loop of
-- src/netqueue/netqueue.cpp together, on hosts of any byte order.
use v_net.Host.{ByteOrder}
use v_net.NetQueue.Element.{NetworkElement, sck_header, SocketData, TunData}
use v_net.NetQueue.Kernel.{Incoming}
use v_net.NetQueue.Process.{process, finished}
use v_net.NetQueue.Process.Frames.{
  Frame, encode, encode_frame, Fits, IsChunks, stream, quiet, deliver,
}
use v_net.NetQueue.Process.Frames.Rounds.{loop}
use v_net.NetQueue.Process.Frames.Delivery.{process_delivers}
use v_net.NetQueue.Write.{Outgoing, send_message}
use v_net.NetQueue.Write.Order.{pending, IsBounded}
use v_net.NetQueue.Write.Messages.{chain, send_message-order, send_message-IsBounded}
use v_net.Base.{
  Option-cases, inl, inr, Bool-cases, append-nil, sym, ◌>>=◌, ap, if◌then◌else◌, ◌∙◌, ℕ, List, [],
  ◌∷◌, ◌++◌, ◌≡◌, arith, length, Option, none, some, ◌<◌, ◌*◌, ◌+◌,
}

-- The messages that are sent, each with what `write` does meanwhile.
unfoldable pub frames : List (Frame × List Outgoing) → List Frame
frames [] = []
frames ((fr, s) ∷ ms) = fr ∷ frames ms

-- What the calls put on the wire and leave, if all of them succeed.
unfoldable pub send_all :
    ByteOrder → List (Frame × List Outgoing) → NetworkElement → Option (List ℕ × NetworkElement)
send_all o [] el = some ([], el)
send_all o ((fr, s) ∷ ms) el =
    let r = send_message o fr.packet_type (some fr.payload) el s in
    let rest = send_all o ms r.element in
    if r.ok then (do (wire, el') ← rest; some (r.wire ++ wire, el')) else none

send_all-order :
    (o : ByteOrder) (ms : List (Frame × List Outgoing)) (el el' : NetworkElement) (wire : List ℕ)
    → IsBounded el
    → Fits (frames ms)
    → send_all o ms el ≡ some (wire, el')
    → wire ++ pending el' ≡ pending el ++ encode (frames ms)
unfolding send_all frames encode encode_frame
send_all-order o [] el el' wire i t h =
    let same : el ≡ el' = ground arith in
    let nothing : wire ≡ [] = ground arith in
    ap (λ l. l ++ pending el') nothing ∙ ap pending (sym same) ∙ sym (append-nil (pending el))
send_all-order o ((fr, s) ∷ ms) el el' wire i t h =
    let r = send_message o fr.packet_type (some fr.payload) el s in
    elim (Bool-cases r.ok) [
      | inr e ↦ absurd (ground arith)
      | inl e ↦ elim (Option-cases (send_all o ms r.element)) [
        | inl f ↦ absurd (ground arith)
        | inr ((more, last), f) ↦
            let one =
              send_message-order o fr.packet_type fr.payload el s i (omega arith) (omega arith) e in
            let i' = send_message-IsBounded o fr.packet_type fr.payload el s i in
            let others = send_all-order o ms r.element last more i' t.1 f in
            let both =
              chain r.wire more (pending el) (pending r.element) (pending last) (encode_frame fr)
                (encode (frames ms)) one others in
            ground (arith, both)
      ]
    ]

-- When one end has sent messages successfully and owes no byte, and the other end gets the bytes
-- on the wire, however they are cut, its loop ends with exactly these messages delivered to the
-- handler in order, whatever the byte orders of the two hosts. Both ends start with nothing under
-- way, every message fits the buffer, and the handler leaves the element alone.
pub send_all_delivers :
    {W : Type 0} (o o' : ByteOrder) (f : W → SocketData → W) (g : W → TunData → W)
    (ms : List (Frame × List Outgoing)) (from from' to : NetworkElement) (wire : List ℕ) (fuel : ℕ)
    (s : List Incoming) (w : W)
    → IsBounded from
    → pending from ≡ []
    → Fits (frames ms)
    → send_all o ms from ≡ some (wire, from')
    → pending from' ≡ []
    → IsChunks s
    → stream s ≡ wire
    → 4 * length (stream s) + 1 < fuel
    → process o' (quiet f g) fuel (loop o' f g to sck_header [] s w)
      ≡ finished (loop o' f g to sck_header [] [] (deliver f to w (frames ms)))
send_all_delivers o o' f g ms from from' to wire fuel s w i e t h e' c st m =
    let order = send_all-order o ms from from' wire i t h in
    let whole : stream s ≡ encode (frames ms) =
      st
      ∙ sym (append-nil wire)
      ∙ ap (λ l. wire ++ l) (sym e')
      ∙ order
      ∙ ap (λ l. l ++ encode (frames ms)) e in
    process_delivers o' f g to fuel s w (frames ms) c t whole m
