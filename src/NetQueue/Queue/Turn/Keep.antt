-- ===== src/NetQueue/Queue/Turn/Keep.antt =====
-- The reads of one connection in src/netqueue/netqueue.cpp under handlers that leave the table alone
-- for the packets that they take.
use v_net.Base.{
  ℕ, Option, some, List, [], ◌≡◌, refl, sym, ap, ◌∙◌, nat_eq, int_eq, ◌<◌, ◌+◌, ◌*◌, length,
}
use v_net.Base.Map.{find, insert, insert-insert, insert-find, find-insert_self}
use v_net.Host.{ByteOrder}
use v_net.NetQueue.Element.{NetworkElement, SocketData, sck_header}
use v_net.NetQueue.Kernel.{Incoming}
use v_net.NetQueue.Process.{Loop, process, finished}
use v_net.NetQueue.Process.Follow.{Does, or_failed, no_tun, read_side, write_side, at_place}
use v_net.NetQueue.Process.Follow.Ends.{process-Ends}
use v_net.NetQueue.Process.Frames.{Frame, encode, Fits, IsChunks, stream, deliver, quiet}
use v_net.NetQueue.Process.Frames.Rounds.{loop}
use v_net.NetQueue.Process.Frames.Delivery.{process_delivers}
use v_net.NetQueue.Queue.{Queue}
use v_net.NetQueue.Queue.Turn.{QueueHandler, handler_at, at_element, process_at, passes}
use v_net.NetQueue.Queue.Turn.Receive.{idle, IsOver}

-- For a packet that `f` takes, the handler does what `f` does and leaves the table alone.
unfoldable pub TakesQuietly : {W : Type 0} → QueueHandler W → (W → SocketData → Option W) → Type 0
TakesQuietly {W} h f =
    (w w' : W) (q : Queue) (d : SocketData)
    → f w d ≡ some w'
    → h.on_socket_ready w q d ≡ some (w', q)

module _ {W : Type 0} (o : ByteOrder) (h : QueueHandler W) (f : W → SocketData → Option W)
    (takes : TakesQuietly h f) (p : ℕ) (q : Queue) (el : NetworkElement) where
  -- The table but for the element in use, which has still to write what it had.
  abbrev IsKept : W → W × Queue → NetworkElement → Type 0
  IsKept x wq rest = (wq.0 ≡ x) × IsOver p q wq × (rest ≡ write_side el)

  handler-Does : Does IsKept f (handler_at o h p)
  unfolding Does handler_at at_element TakesQuietly
  handler-Does x x' (w, q1) e d (same, over, rest) fd ptr taken =
      let q2 : Queue = record q1 { elements = insert p e q1.elements } in
      let done : h.on_socket_ready w q2 d ≡ some (x', q2) =
        takes w x' q2 d (ap (λ y. f y d) same ∙ taken) in
      (
        (x', q2),
        e,
        rw (done, find-insert_self p e q1.elements) refl,
        (refl, (over.0, λ y. insert-insert p e y q1.elements ∙ over.1 y), rest),
        refl,
        refl,
      )

  between-same :
      (e : NetworkElement)
      → sck_header ≡ e.state
      → [] ≡ e.net_buffer
      → write_side e ≡ write_side el
      → idle el ≡ el
      → e ≡ el
  between-same e state buffer same still =
      sym (
        ap (λ x. record e { state = x; net_buffer = [] }) state
        ∙ ap (λ x. record e { net_buffer = x }) buffer)
      ∙ same
      ∙ still

  -- `process` on a live element between two packets, whose stream is frames that `f` takes one after
  -- the other, leaves the table as it was and the state that `f` gives.
  pub process_at-takes :
      (fuel : ℕ) (s : List Incoming) (w x : W) (fs : List Frame)
      → find p q.elements ≡ some el
      → idle el ≡ el
      → IsChunks s
      → Fits fs
      → stream s ≡ encode fs
      → 4 * length (stream s) + 1 < fuel
      → deliver (or_failed f) (read_side el) (some w) fs ≡ some x
      → process_at o h fuel p s el w q ≡ passes (x, q)
  unfolding process_at
  process_at-takes fuel s w x fs found still c t e m taken =
      let l : Loop (W × Queue) = record { element = el; script = s; world = (w, q) } in
      let g = or_failed f in
      let l' =
        loop o g no_tun (read_side el) sck_header [] [] (deliver g (read_side el) (some w) fs) in
      let done : process o (quiet g no_tun) fuel (at_place IsKept w l) ≡ finished l' =
        ap
          (λ y.
            process o (quiet g no_tun) fuel
              (record { element = read_side y; script = s; world = some w }))
          (sym still)
        ∙ process_delivers o g no_tun (read_side el) fuel s (some w) fs c t e m in
      let (end, ended, (same, (state, over, rest))) =
        process-Ends IsKept o f (handler_at o h p) handler-Does fuel w l l' x
          (refl, (refl, λ y. refl), refl) done taken in
      let there : end.element ≡ el =
        between-same end.element (ap (λ y. y.element.state) same)
          (ap (λ y. y.element.net_buffer) same) rest still in
      let back : insert p end.element end.world.1.elements ≡ q.elements =
        over.1 end.element
        ∙ ap (λ y. insert p y q.elements) there
        ∙ insert-find p el q.elements found in
      rw (ended, process_at, state, back, over.0) refl
