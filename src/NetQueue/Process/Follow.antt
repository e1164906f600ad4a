-- ===== src/NetQueue/Process/Follow.antt =====
-- The loop of `NetQueue::process` with a handler that may fail for some packets and may change what
-- the element has still to write, against what the handler does to a state of its own.
pub mod Ends
use v_net.NetQueue.Process.{
  round, in_ready, in_tun_ready, process, finished, Outcome, in_header, in_payload, in_tun_receive,
  Round, goes_on, returns, faults, Loop, Handler,
}
use v_net.Base.{
  ℕ, zero, suc, subst, ◌∙◌, ap, sym, arith, refl, inl, inr, ◌⊎◌, Option-cases, none, [], Option,
  some, ◌≡◌,
}
use v_net.NetQueue.Process.Relate.{after_round, data_for}
use v_net.Protocol.Header.{header_at, PacketHeader}
use v_net.Host.{ByteOrder}
use v_net.NetQueue.Process.Frames.{quiet}
use v_net.NetQueue.Element.{sck_header, NetworkElement, SocketData, TunData}

-- A failure stays.
abbrev pub or_failed : {W : Type 0} → (W → SocketData → Option W) → Option W → SocketData → Option W
or_failed f none d = none
or_failed f (some w) d = f w d

-- No packet of the internet device is expected.
abbrev pub no_tun : {W : Type 0} → Option W → TunData → Option W
no_tun w d = none

-- The element without what it has still to write.
abbrev pub read_side : NetworkElement → NetworkElement
read_side el = record el { write_buffer = []; write_buffer_offset = 0 }

-- The element without what it has read.
abbrev pub write_side : NetworkElement → NetworkElement
write_side el = record el { state = sck_header; net_buffer = [] }

module _ {W V : Type 0} (R : W → V → NetworkElement → Type 0) where
  -- A handler that does what `f` does to the state that it keeps a relation with. It leaves the
  -- descriptor and the pointer of the element alone.
  unfoldable pub Does : (W → SocketData → Option W) → Handler V → Type 0
  Does f h =
      (w w' : W) (v : V) (el : NetworkElement) (d : SocketData)
      → R w v (write_side el)
      → d.fd ≡ el.fd
      → d.ptr_data ≡ el.ptr
      → f w d ≡ some w'
      → (v' : V) × (el' : NetworkElement) × (h.on_socket_ready v el d ≡ some (v', el'))
        × R w' v' (write_side el')
        × (el'.fd ≡ el.fd)
        × (el'.ptr ≡ el.ptr)

  -- The same place in the loop.
  abbrev pub at_place : W → Loop V → Loop (Option W)
  at_place w l = record { element = read_side l.element; script = l.script; world = some w }

  abbrev pub Matches : W → Loop (Option W) → Loop V → Type 0
  Matches w a b = (a ≡ at_place w b) × R w b.world (write_side b.element)

  -- Rounds that go the same way in the same state.
  abbrev Keeps : W → Round (Option W) → Round V → Type 0
  Keeps w (goes_on a) (goes_on b) = Matches w a b
  Keeps w (goes_on a) (returns b) = ⊥
  Keeps w (goes_on a) faults = ⊥
  Keeps w (returns a) (goes_on b) = ⊥
  Keeps w (returns a) (returns b) = Matches w a b
  Keeps w (returns a) faults = ⊥
  Keeps w faults b = Unit

  module _ (o : ByteOrder) (f : W → SocketData → Option W) (h : Handler V) (does : Does f h) (w : W)
      (l : Loop V) (r : R w l.world (write_side l.element)) where
    in_header-Keeps :
        Keeps w (in_header o (quiet (or_failed f) no_tun) (at_place w l)) (in_header o h l)
    unfolding in_header
    in_header-Keeps = ground (arith, r)

    in_payload-Keeps :
        Keeps w (in_payload o (quiet (or_failed f) no_tun) (at_place w l)) (in_payload o h l)
    unfolding in_payload
    in_payload-Keeps = ground (arith, r)

    in_tun_receive-Keeps :
        Keeps w
          (in_tun_receive o (quiet (or_failed f) no_tun) (at_place w l))
          (in_tun_receive o h l)
    unfolding in_tun_receive
    in_tun_receive-Keeps = ground (arith, r)

  -- Rounds that go the same way, unless the smaller state has failed.
  abbrev pub Follows : Round (Option W) → Round V → Type 0
  Follows (goes_on a) (goes_on b) = (a.world ≡ none) ⊎ ((w : W) × Matches w a b)
  Follows (goes_on a) (returns b) = a.world ≡ none
  Follows (goes_on a) faults = a.world ≡ none
  Follows (returns a) (goes_on b) = a.world ≡ none
  Follows (returns a) (returns b) = (a.world ≡ none) ⊎ ((w : W) × Matches w a b)
  Follows (returns a) faults = a.world ≡ none
  Follows faults b = Unit

  kept-Follows : (w : W) (a : Round (Option W)) (b : Round V) → Keeps w a b → Follows a b
  kept-Follows w (goes_on a) (goes_on b) k = inr (w, k)
  kept-Follows w (goes_on a) (returns b) k = absurd k
  kept-Follows w (goes_on a) faults k = absurd k
  kept-Follows w (returns a) (goes_on b) k = absurd k
  kept-Follows w (returns a) (returns b) k = inr (w, k)
  kept-Follows w (returns a) faults k = absurd k
  kept-Follows w faults b k = tt

  failed-Follows : (a : Loop (Option W)) (b : Round V) → a.world ≡ none → Follows (goes_on a) b
  failed-Follows a (goes_on b) e = inl e
  failed-Follows a (returns b) e = e
  failed-Follows a faults e = e

  by_rounds :
      (a a' : Round (Option W)) (b b' : Round V) → a ≡ a' → b ≡ b' → Follows a' b' → Follows a b
  by_rounds a a' b b' ea eb x =
      subst (λ r. Follows r b) (sym ea) (subst (λ r. Follows a' r) (sym eb) x)

  module _ (o : ByteOrder) (f : W → SocketData → Option W) (h : Handler V) (does : Does f h) (w : W)
      (l : Loop V) (r : R w l.world (write_side l.element)) where
    -- The rounds that call the handler, once its results are known.
    abbrev ready_loop : Option W → Loop (Option W)
    ready_loop w' = record {
      element = record (read_side l.element) { net_buffer = []; state = sck_header };
      script = l.script;
      world = w';
    }

    abbrev called_loop : V → NetworkElement → Loop V
    called_loop v el = record {
      element = record el { net_buffer = []; state = sck_header };
      script = l.script;
      world = v;
    }

    in_ready-abstract :
        (header : PacketHeader)
        → header_at o l.element.net_buffer ≡ some header
        → in_ready o (quiet (or_failed f) no_tun) (at_place w l)
          ≡ goes_on (ready_loop (f w (data_for o l.element header)))
    unfolding in_ready
    in_ready-abstract header there = ground (arith, there)

    in_ready-called :
        (header : PacketHeader) (v : V) (el : NetworkElement)
        → header_at o l.element.net_buffer ≡ some header
        → h.on_socket_ready l.world l.element (data_for o l.element header) ≡ some (v, el)
        → in_ready o h l ≡ goes_on (called_loop v el)
    unfolding in_ready
    in_ready-called header v el there called = ground (arith, there, called)

    in_ready-faults :
        header_at o l.element.net_buffer ≡ none
        → in_ready o (quiet (or_failed f) no_tun) (at_place w l) ≡ faults
    unfolding in_ready
    in_ready-faults nothing = ground (arith, nothing)

    same_place :
        (w' : W) (v : V) (el : NetworkElement)
        → el.fd ≡ l.element.fd
        → el.ptr ≡ l.element.ptr
        → ready_loop (some w') ≡ at_place w' (called_loop v el)
    same_place w' v el fd ptr = rw (fd, ptr) refl

    in_ready-Follows :
        Follows (in_ready o (quiet (or_failed f) no_tun) (at_place w l)) (in_ready o h l)
    unfolding Does
    in_ready-Follows = elim (Option-cases (header_at o l.element.net_buffer)) [
      | inl nothing ↦ by_rounds _ faults _ (in_ready o h l) (in_ready-faults nothing) refl tt
      | inr (header, there) ↦
          let d = data_for o l.element header in
          elim (Option-cases (f w d)) [
            | inl failed ↦
                by_rounds _ (goes_on (ready_loop (f w d))) _ (in_ready o h l)
                  (in_ready-abstract header there) refl
                  (failed-Follows (ready_loop (f w d)) (in_ready o h l) failed)
            | inr (w', done) ↦
                let (v', el', called, r', same_fd, same_ptr) =
                  does w w' l.world l.element d r refl refl done in
                by_rounds _ (goes_on (ready_loop (some w'))) _ (goes_on (called_loop v' el'))
                  (in_ready-abstract header there ∙ ap (λ x. goes_on (ready_loop x)) done)
                  (in_ready-called header v' el' there called)
                  (inr (w', (same_place w' v' el' same_fd same_ptr, r')))
          ]
    ]

    in_tun_ready-Follows :
        Follows (in_tun_ready o (quiet (or_failed f) no_tun) (at_place w l)) (in_tun_ready o h l)
    unfolding in_tun_ready
    in_tun_ready-Follows = ground arith

    pub round-Follows : Follows (round o (quiet (or_failed f) no_tun) (at_place w l)) (round o h l)
    unfolding round
    round-Follows =
        let q = quiet (or_failed f) no_tun in
        let p = at_place w l in
        let header =
          kept-Follows w (in_header o q p) (in_header o h l) (in_header-Keeps o f h does w l r) in
        let payload =
          kept-Follows w (in_payload o q p) (in_payload o h l)
            (in_payload-Keeps o f h does w l r) in
        let receive =
          kept-Follows w (in_tun_receive o q p) (in_tun_receive o h l)
            (in_tun_receive-Keeps o f h does w l r) in
        let stays : (p.world ≡ none) ⊎ ((w' : W) × Matches w' p l) = inr (w, (refl, r)) in
        ground (arith, header, payload, receive, stays, in_ready-Follows, in_tun_ready-Follows)
