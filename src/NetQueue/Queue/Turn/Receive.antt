-- ===== src/NetQueue/Queue/Turn/Receive.antt =====
-- The reads of one event in `wait_and_process` of src/netqueue/netqueue.cpp.
use v_net.NetQueue.Process.{Loop, process, finished}
use v_net.NetQueue.Process.Relate.{seen_loop, process-Ends, Shows}
use v_net.NetQueue.Process.Frames.Stops.{
  Stop, dries, pauses, hangs_up, fails, signalled, behind, unread, state_at, process-stops_at,
}
use v_net.NetQueue.Process.Frames.{quiet, deliver, Frame, encode, Fits, IsChunks, stream}
use v_net.NetQueue.Process.Frames.Rounds.{loop}
use v_net.Base.Map.{insert-find, find, insert, insert-insert, find-insert_self}
use v_net.NetQueue.Queue.Turn.{
  verdict_of, receive, passes, Incoming, process_at, QueueHandler, EpollEvent, handler_at,
  at_element,
}
use v_net.Base.{
  ◌++◌, Bool, none, sym, ap, Option, ℕ, true, false, some, List, [], ◌≡◌, refl, ◌∙◌, nat_eq, int_eq,
  ◌<◌, ◌+◌, ◌*◌, length,
}
use v_net.Host.{ByteOrder}
use v_net.NetQueue.Element.{
  CloseReason, close_hangup, close_error, NetworkElement, SocketData, TunData, sck_header,
}
use v_net.NetQueue.Queue.{Queue}

-- The handlers for packets leave the table and the elements alone.
unfoldable pub KeepsElements :
    {W : Type 0} → QueueHandler W → (W → SocketData → W) → (W → TunData → W) → Type 0
KeepsElements {W} h f g =
    ((w : W) (q : Queue) (d : SocketData) → h.on_socket_ready w q d ≡ some (f w d, q))
    × ((w : W) (q : Queue) (d : TunData) → h.on_tun_ready w q d ≡ some (g w d, q))

-- An element between two packets.
abbrev pub idle : NetworkElement → NetworkElement
idle el = record el { state = sck_header; net_buffer = [] }

-- The table with the element in use written back.
abbrev pub in_use : ℕ → NetworkElement → Queue → Queue
in_use p el q = record q { elements = insert p el q.elements }

-- What the reads of a connection bring: whole frames, and then how they stop.
pub record Burst : Type 0 where
  pub frames : List Frame
  pub stop : Stop

-- A burst in the script of an event, with fuel for it, if the event asks for reads.
abbrev pub Carries : ℕ → Bool → List Incoming → Burst → Type 0
Carries fuel true script b =
    (s : List Incoming) × (rest : List Incoming) × (script ≡ s ++ behind b.stop rest)
    × IsChunks s
    × Fits b.frames
    × (stream s ≡ encode b.frames)
    × (4 * length (stream s) + 1 < fuel)
Carries fuel false script b = (b.frames ≡ []) × (b.stop ≡ dries)

-- What the reads say: the peer hung up, or they failed.
abbrev pub said_by : Stop → Option CloseReason
said_by dries = none
said_by pauses = none
said_by hangs_up = some close_hangup
said_by fails = some close_error
said_by signalled = some close_error

-- The element that they leave.
abbrev pub stopped : Stop → NetworkElement → NetworkElement
stopped stop el = record el { state = state_at stop; net_buffer = [] }

said_by_lem : (stop : Stop) → verdict_of (state_at stop) ≡ said_by stop
unfolding verdict_of
said_by_lem dries = refl
said_by_lem pauses = refl
said_by_lem hangs_up = refl
said_by_lem fails = refl
said_by_lem signalled = refl

-- Another table that differs at one address only.
abbrev pub IsOver : {W : Type 0} → ℕ → Queue → W × Queue → Type 0
IsOver p q wq =
    (wq.1.fd_to_network_element ≡ q.fd_to_network_element)
    × ((x : NetworkElement) → insert p x wq.1.elements ≡ insert p x q.elements)

module _ {W : Type 0} (o : ByteOrder) (h : QueueHandler W) (f : W → SocketData → W)
    (g : W → TunData → W) (keeps : KeepsElements h f g) where
  at_element-IsOver :
      (p : ℕ) (q : Queue) (call : W → Queue → Option (W × Queue)) (w' : W) (wq : W × Queue)
      (el : NetworkElement)
      → call wq.0 (in_use p el wq.1) ≡ some (w', in_use p el wq.1)
      → IsOver p q wq
      → (wq' : W × Queue) × (at_element o h p call wq el ≡ some (wq', el))
        × (wq'.0 ≡ w')
        × IsOver p q wq'
  unfolding at_element
  at_element-IsOver p q call w' wq el called over = (
    (w', in_use p el wq.1),
    rw (called, find-insert_self p el wq.1.elements) refl,
    refl,
    (over.0, λ x. insert-insert p el x wq.1.elements ∙ over.1 x),
  )

  handler_at-Shows :
      (p : ℕ) (q : Queue) → Shows (λ (wq : W × Queue). wq.0) (IsOver p q) f g (handler_at o h p)
  unfolding Shows handler_at KeepsElements
  handler_at-Shows p q = (
    (λ wq el d over.
        at_element-IsOver p q (λ w q. h.on_socket_ready w q d) (f wq.0 d) wq el
          (keeps.0 wq.0 (in_use p el wq.1) d) over),
    (λ wq el d over.
        at_element-IsOver p q (λ w q. h.on_tun_ready w q d) (g wq.0 d) wq el
          (keeps.1 wq.0 (in_use p el wq.1) d) over),
  )

  -- `process` on a live element between two packets calls the handler for the frames of its stream
  -- and leaves the table as it was, but for how the reads stopped.
  process_at-delivers :
      (fuel p : ℕ) (s rest : List Incoming) (el : NetworkElement) (w : W) (q : Queue) (b : Burst)
      → idle el ≡ el
      → IsChunks s
      → Fits b.frames
      → stream s ≡ encode b.frames
      → 4 * length (stream s) + 1 < fuel
      → process_at o h fuel p (s ++ behind b.stop rest) el w q
        ≡ passes (deliver f el w b.frames, in_use p (stopped b.stop el) q)
  unfolding process_at
  process_at-delivers fuel p s rest el w q b still c t e m =
      let script = s ++ behind b.stop rest in
      let l : Loop (W × Queue) = record { element = el; script = script; world = (w, q) } in
      let last =
        loop o f g el (state_at b.stop) [] (unread b.stop rest) (deliver f el w b.frames) in
      let done : process o (quiet f g) fuel (seen_loop (λ (wq : W × Queue). wq.0) (IsOver p q) l)
          ≡ finished last =
        ap (λ x. process o (quiet f g) fuel (record { element = x; script = script; world = w }))
          (sym still)
        ∙ process-stops_at o f g el b.stop rest fuel s w b.frames c t e m in
      let (end, ended, same, over) =
        process-Ends (λ (wq : W × Queue). wq.0) (IsOver p q) o f g (handler_at o h p)
          (handler_at-Shows p q) fuel l last (refl, λ x. refl) done in
      let there : end.element ≡ stopped b.stop el = sym (ap (λ l. l.element) same) in
      let world : end.world.0 ≡ deliver f el w b.frames = sym (ap (λ l. l.world) same) in
      let back : insert p end.element end.world.1.elements
          ≡ insert p (stopped b.stop el) q.elements =
        over.1 end.element ∙ ap (λ x. insert p x q.elements) there in
      rw (ended, process_at, world, back, over.0) refl

  reads-delivers :
      (fuel : ℕ) (ev : EpollEvent) (el : NetworkElement) (w : W) (q : Queue) (b : Burst)
      (asks : Bool)
      → ev.epollin ≡ asks
      → find ev.data_ptr q.elements ≡ some el
      → idle el ≡ el
      → Carries fuel asks ev.incoming b
      → receive o h fuel ev w q
        ≡ passes (said_by b.stop, deliver f el w b.frames, in_use ev.data_ptr (stopped b.stop el) q)
  unfolding receive deliver
  reads-delivers fuel ev el w q b false asked found still (nothing, dry) =
      let same : in_use ev.data_ptr (stopped dries el) q ≡ q =
        ap (λ x. in_use ev.data_ptr x q) still
        ∙ ap (λ x. record q { elements = x }) (insert-find ev.data_ptr el q.elements found) in
      rw (asked, nothing, dry) (ap (λ x. passes (none, w, x)) (sym same))
  reads-delivers fuel ev el w q b true asked found still (s, rest, cut, c, t, e, m) =
      let p = ev.data_ptr in
      let done : process_at o h fuel p ev.incoming el w q
          ≡ passes (deliver f el w b.frames, in_use p (stopped b.stop el) q) =
        ap (λ x. process_at o h fuel p x el w q) cut
        ∙ process_at-delivers fuel p s rest el w q b still c t e m in
      rw (asked, found, done, find-insert_self p (stopped b.stop el) q.elements, said_by_lem b.stop)
        refl

  -- The reads of an event on a live element between two packets.
  pub receive-delivers :
      (fuel : ℕ) (ev : EpollEvent) (el : NetworkElement) (w : W) (q : Queue) (b : Burst)
      → find ev.data_ptr q.elements ≡ some el
      → idle el ≡ el
      → Carries fuel ev.epollin ev.incoming b
      → receive o h fuel ev w q
        ≡ passes (said_by b.stop, deliver f el w b.frames, in_use ev.data_ptr (stopped b.stop el) q)
  receive-delivers fuel ev el w q b found still carries =
      reads-delivers fuel ev el w q b ev.epollin refl found still carries
