-- ===== src/Switch/Program/Deliver.antt =====
-- The switch of src/switch/setup.cpp on its event queue, when one connection is read.
use v_net.Base.{
  ℕ, false, Option, some, List, [], ◌++◌, ◌≡◌, ◌≢◌, ◌⊎◌, ◌<◌, ◌^◌, ◌+◌, ◌*◌, refl, sym, ap, ◌∙◌,
  arith, nat_eq, int_eq, length, inr, append-nil, ℕ_discrete, subst,
}
use v_net.Base.Map.{find, insert, find-insert, find-insert_self, IsMap}
use v_net.Base.Heap.{field_at}
use v_net.Host.{ByteOrder}
use v_net.Protocol.Mip.{Coders}
use v_net.NetQueue.Element.{NetworkElement, sck_header}
use v_net.NetQueue.Kernel.{Incoming}
use v_net.NetQueue.Write.Order.{pending, IsBounded}
use v_net.NetQueue.Process.{Loop, process, finished}
use v_net.NetQueue.Process.Follow.Ends.{process-Ends}
use v_net.NetQueue.Process.Follow.{or_failed, no_tun, read_side, write_side, at_place}
use v_net.NetQueue.Process.Frames.{Frame, encode, Fits, IsChunks, stream, deliver, quiet}
use v_net.NetQueue.Process.Frames.Rounds.{loop}
use v_net.NetQueue.Process.Frames.Delivery.{process_delivers}
use v_net.NetQueue.Queue.{Queue}
use v_net.NetQueue.Queue.Sound.{IsSound, fd_at}
use v_net.NetQueue.Queue.Turn.{process_at, passes, handler_at}
use v_net.NetQueue.Queue.Turn.Settle.{in_table}
use v_net.NetQueue.Queue.Turn.Receive.{idle}
use v_net.Switch.Program.{World, switch_handler}
use v_net.Switch.Program.Follow.{IsHeld, handler-Does}
use v_net.Switch.Program.Takes.{Progress, takes_packet}

-- A table with the same descriptors at the same addresses.
same_fds-IsSound :
    (q q' : Queue)
    → q'.fd_to_network_element ≡ q.fd_to_network_element
    → ((r : ℕ) → fd_at r q'.elements ≡ fd_at r q.elements)
    → IsSound q
    → IsSound q'
unfolding IsSound
same_fds-IsSound q q' table same sound = (
  (λ fd p e. same p ∙ sound.0 fd p (sym (ap (find fd) table) ∙ e)),
  (λ fd p e. ap (find fd) table ∙ sound.1 fd p (sym (same p) ∙ e)),
  subst (λ t. IsMap t) (sym table) sound.2,
)

-- An element between two packets.
between-idle : (el : NetworkElement) → sck_header ≡ el.state → [] ≡ el.net_buffer → idle el ≡ el
between-idle el state buffer =
    ap (λ x. record el { state = x; net_buffer = [] }) state
    ∙ ap (λ x. record el { net_buffer = x }) buffer

module _ (o : ByteOrder) (c : Coders) (clock : ℕ → ℕ)
    (short : length (c.connection_accepted.serialize tt) < 2 ^ 32) where
  -- The state after the frames, if the switch takes all of them.
  abbrev pub takes_frames : NetworkElement → Progress → List Frame → Option Progress
  takes_frames el x fs = deliver (or_failed (takes_packet c clock)) (read_side el) (some x) fs

  -- What is left when the connection at `p` has been read.
  unfoldable pub IsRead :
      ℕ → World → Queue → NetworkElement → Progress → World → Queue → NetworkElement → Type 0
  IsRead p w q el (s, n, out) w' q' el' =
      (w'.state ≡ s)
      × (w'.readings ≡ n)
      × IsSound q'
      × (find p q'.elements ≡ some el')
      × (idle el' ≡ el')
      × (el'.fd ≡ el.fd)
      × (el'.ptr ≡ el.ptr)
      × IsBounded el'
      × ((r : ℕ) → p ≢ r → find r q'.elements ≡ find r q.elements)
      × ((w'.all_sent ≡ false) ⊎ (w'.wire ++ pending el' ≡ (w.wire ++ pending el) ++ out))

  -- From the end of the loop, with the element put back.
  ended-IsRead :
      (p : ℕ) (el : NetworkElement) (w : World) (q : Queue)
      (at : find el.fd q.fd_to_network_element ≡ some p) (x : Progress) (end : Loop (World × Queue))
      → IsSound q
      → find p q.elements ≡ some el
      → sck_header ≡ end.element.state
      → [] ≡ end.element.net_buffer
      → IsHeld o c clock p q el (w.wire ++ pending el) at short x end.world (write_side end.element)
      → IsRead p w q el x end.world.0
          (record (end.world.1) { elements = insert p end.element end.world.1.elements })
          end.element
  unfolding IsHeld IsRead IsBounded field_at
  ended-IsRead p el w q at x end sound found state buffer
        (st, rd, table, fd, ptr, bounded, others, owed) =
      (
        st,
        rd,
        same_fds-IsSound q
            (record (end.world.1) { elements = insert p end.element end.world.1.elements }) table
            (λ r. elim (ℕ_discrete p r) [
              | yes here ↦ ground (
                arith,
                find-insert p r end.element end.world.1.elements,
                found,
                fd,
                ap (λ y. find y q.elements) here,
              )
              | no other ↦
                  ground (arith, find-insert p r end.element end.world.1.elements, others r other)
            ])
            sound,
        find-insert_self p end.element end.world.1.elements,
        between-idle end.element state buffer,
        fd,
        ptr,
        bounded,
        (λ r other.
            ground (arith, find-insert p r end.element end.world.1.elements, others r other)),
        owed,
      )

  start-IsHeld :
      (p : ℕ) (el : NetworkElement) (q : Queue) (at : find el.fd q.fd_to_network_element ≡ some p)
      (w : World)
      → IsBounded el
      → IsHeld o c clock p q el
          (w.wire ++ pending el)
          at
          short
          (w.state, w.readings, [])
          (w, q)
          (write_side el)
  unfolding IsHeld IsBounded
  start-IsHeld p el q at w bounded = (
    refl,
    refl,
    refl,
    refl,
    refl,
    bounded,
    (λ r other. refl),
    inr (sym (append-nil (w.wire ++ pending el))),
  )

  pub process_at-IsRead :
      (fuel p : ℕ) (s : List Incoming) (el : NetworkElement) (w : World) (q : Queue)
      (fs : List Frame) (x : Progress)
      → IsSound q
      → find p q.elements ≡ some el
      → idle el ≡ el
      → IsBounded el
      → IsChunks s
      → Fits fs
      → stream s ≡ encode fs
      → 4 * length (stream s) + 1 < fuel
      → takes_frames el (w.state, w.readings, []) fs ≡ some x
      → (w' : World) × (q' : Queue) × (el' : NetworkElement) × (process_at o
            (switch_handler o c clock)
            fuel
            p
            s
            el
            w
            q
          ≡ passes (w', q'))
        × IsRead p w q el x w' q' el'
  unfolding process_at
  process_at-IsRead fuel p s el w q fs x sound found still bounded ch fits e enough taken =
      let at = in_table p el q sound found in
      let f = or_failed (takes_packet c clock) in
      let x0 : Progress = (w.state, w.readings, []) in
      let held = IsHeld o c clock p q el (w.wire ++ pending el) at short in
      let l : Loop (World × Queue) = record { element = el; script = s; world = (w, q) } in
      let l' =
        loop o f no_tun (read_side el) sck_header [] [] (deliver f (read_side el) (some x0) fs) in
      let done : process o (quiet f no_tun) fuel (at_place held x0 l) ≡ finished l' =
        ap
          (λ y.
            process o (quiet f no_tun) fuel
              (record { element = read_side y; script = s; world = some x0 }))
          (sym still)
        ∙ process_delivers o f no_tun (read_side el) fuel s (some x0) fs ch fits e enough in
      let (end, ended, (same, kept)) =
        process-Ends held o (takes_packet c clock) (handler_at o (switch_handler o c clock) p)
          (handler-Does o c clock p q el (w.wire ++ pending el) at short) fuel x0 l l' x
          (start-IsHeld p el q at w bounded) done taken in
      (
        end.world.0,
        record (end.world.1) { elements = insert p end.element end.world.1.elements },
        end.element,
        rw (ended, process_at) refl,
        ended-IsRead p el w q at x end sound found (ap (λ y. y.element.state) same)
            (ap (λ y. y.element.net_buffer) same) kept,
      )
