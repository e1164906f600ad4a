-- ===== src/NetQueue/Process/Relate.antt =====
-- The loop of `NetQueue::process` with a handler whose state is more than what it shows.
use v_net.Protocol.Header.{
  header_at, get_packet_type, get_payload_size, packet_header_size, PacketHeader,
}
use v_net.Base.{refl, zero, suc, ℕ, Option-cases, inl, inr, drop, some, ◌≡◌, arith, sym, ap, ◌∙◌}
use v_net.Host.{ByteOrder}
use v_net.NetQueue.Process.Frames.{quiet}
use v_net.NetQueue.Process.{
  Outcome, faulted, finished, process, in_ready, in_tun_ready, round, in_header, in_payload,
  in_tun_receive, NetworkElement, TunData, SocketData, Handler, Loop, Round, goes_on, returns,
  faults,
}

-- A handler that changes its state as `f` and `g` change what is seen of it, leaves the element alone
-- and keeps a predicate on its state.
unfoldable pub Shows :
    {W V : Type 0}
    → (V → W)
    → (V → Type 0)
    → (W → SocketData → W)
    → (W → TunData → W)
    → Handler V
    → Type 0
Shows {W} {V} see R f g h =
    ((v : V) (el : NetworkElement) (d : SocketData)
      → R v
      → (v' : V) × (h.on_socket_ready v el d ≡ some (v', el)) × (see v' ≡ f (see v) d) × R v')
    × ((v : V) (el : NetworkElement) (d : TunData)
        → R v
        → (v' : V) × (h.on_tun_ready v el d ≡ some (v', el)) × (see v' ≡ g (see v) d) × R v')

-- What a round leads to.
abbrev pub after_round : {U : Type 0} → (Loop U → Outcome U) → Round U → Outcome U
after_round again r = elim r [ goes_on l ↦ again l | returns l ↦ finished l | faults ↦ faulted ]

-- What the handler is given for a complete packet.
abbrev pub data_for : ByteOrder → NetworkElement → PacketHeader → SocketData
data_for o el header = record {
  ptr_data = el.ptr;
  fd = el.fd;
  packet_type = get_packet_type o header;
  packet_buffer = drop packet_header_size el.net_buffer;
  payload_size = get_payload_size o header;
  full_buffer = el.net_buffer;
}

module _ {W V : Type 0} (see : V → W) (R : V → Type 0) where
  -- The loop as the smaller state shows it.
  abbrev pub seen_loop : Loop V → Loop W
  seen_loop l = record { element = l.element; script = l.script; world = see l.world }

  -- Rounds that go the same way.
  abbrev Follows : Round W → Round V → Type 0
  Follows (goes_on a) (goes_on b) = (a ≡ seen_loop b) × R b.world
  Follows (goes_on a) (returns b) = ⊥
  Follows (goes_on a) faults = ⊥
  Follows (returns a) (goes_on b) = ⊥
  Follows (returns a) (returns b) = (a ≡ seen_loop b) × R b.world
  Follows (returns a) faults = ⊥
  Follows faults (goes_on b) = ⊥
  Follows faults (returns b) = ⊥
  Follows faults faults = Unit

  module _ (o : ByteOrder) (f : W → SocketData → W) (g : W → TunData → W) (h : Handler V)
      (shows : Shows see R f g h) where
    in_header-Follows :
        (l : Loop V) → R l.world → Follows (in_header o (quiet f g) (seen_loop l)) (in_header o h l)
    unfolding in_header
    in_header-Follows l r = ground (arith, r)

    in_payload-Follows :
        (l : Loop V)
        → R l.world
        → Follows (in_payload o (quiet f g) (seen_loop l)) (in_payload o h l)
    unfolding in_payload
    in_payload-Follows l r = ground (arith, r)

    in_tun_receive-Follows :
        (l : Loop V)
        → R l.world
        → Follows (in_tun_receive o (quiet f g) (seen_loop l)) (in_tun_receive o h l)
    unfolding in_tun_receive
    in_tun_receive-Follows l r = ground (arith, r)

    in_ready-Follows :
        (l : Loop V) → R l.world → Follows (in_ready o (quiet f g) (seen_loop l)) (in_ready o h l)
    unfolding in_ready Shows
    in_ready-Follows l r = elim (Option-cases (header_at o l.element.net_buffer)) [
      | inl none_there ↦ ground (arith, none_there)
      | inr (header, there) ↦
          let (v, called, same, kept) = shows.0 l.world l.element (data_for o l.element header) r in
          ground (arith, there, called, same, kept)
    ]

    in_tun_ready-Follows :
        (l : Loop V)
        → R l.world
        → Follows (in_tun_ready o (quiet f g) (seen_loop l)) (in_tun_ready o h l)
    unfolding in_tun_ready Shows
    in_tun_ready-Follows l r =
        let d : TunData = record {
          ptr_data = l.element.ptr;
          fd = l.element.fd;
          ip_buffer = l.element.net_buffer;
        } in
        let (v, called, same, kept) = shows.1 l.world l.element d r in
        ground (arith, called, same, kept)

    round-Follows :
        (l : Loop V) → R l.world → Follows (round o (quiet f g) (seen_loop l)) (round o h l)
    unfolding round
    round-Follows l r = ground (
      arith,
      r,
      in_header-Follows l r,
      in_payload-Follows l r,
      in_tun_receive-Follows l r,
      in_ready-Follows l r,
      in_tun_ready-Follows l r,
    )

    -- The end of the other loop.
    abbrev Ends : Outcome V → Loop W → Type 0
    Ends x l' = (end : Loop V) × (x ≡ finished end) × (l' ≡ seen_loop end) × R end.world

    after_round-Ends :
        (fuel : ℕ) (a : Round W) (b : Round V) (l' : Loop W)
        → ((l : Loop V)
            → R l.world
            → process o (quiet f g) fuel (seen_loop l) ≡ finished l'
            → Ends (process o h fuel l) l')
        → Follows a b
        → after_round (process o (quiet f g) fuel) a ≡ finished l'
        → Ends (after_round (process o h fuel) b) l'
    after_round-Ends fuel (goes_on a) (goes_on b) l' again (same, kept) e =
        again b kept (ap (process o (quiet f g) fuel) (sym same) ∙ e)
    after_round-Ends fuel (goes_on a) (returns b) l' again x e = absurd x
    after_round-Ends fuel (goes_on a) faults l' again x e = absurd x
    after_round-Ends fuel (returns a) (goes_on b) l' again x e = absurd x
    after_round-Ends fuel (returns a) (returns b) l' again (same, kept) e =
        (b, refl, ground (arith, same), kept)
    after_round-Ends fuel (returns a) faults l' again x e = absurd x
    after_round-Ends fuel faults (goes_on b) l' again x e = absurd x
    after_round-Ends fuel faults (returns b) l' again x e = absurd x
    after_round-Ends fuel faults faults l' again x e = absurd (ground arith)

    -- A loop that ends under the smaller state ends alike under the other one.
    pub process-Ends :
        (fuel : ℕ) (l : Loop V) (l' : Loop W)
        → R l.world
        → process o (quiet f g) fuel (seen_loop l) ≡ finished l'
        → (end : Loop V) × (process o h fuel l ≡ finished end) × (l' ≡ seen_loop end) × R end.world
    unfolding process
    process-Ends zero l l' r e = absurd (ground arith)
    process-Ends (suc fuel) l l' r e =
        after_round-Ends fuel (round o (quiet f g) (seen_loop l)) (round o h l) l'
          (λ l r e. process-Ends fuel l l' r e) (round-Follows l r) e
