-- ===== src/NetQueue/Process/Follow/Ends.antt =====
-- The ends of two loops of `NetQueue::process` that go the same way.
use v_net.NetQueue.Process.{
  round, in_ready, in_tun_ready, process, finished, Outcome, in_header, in_payload, in_tun_receive,
  Round, goes_on, returns, faults, Loop, Handler,
}
use v_net.Base.{ℕ, zero, suc, subst, ◌∙◌, ap, sym, arith, refl, inl, inr, none, Option, some, ◌≡◌}
use v_net.NetQueue.Process.Relate.{after_round}
use v_net.Host.{ByteOrder}
use v_net.NetQueue.Process.Frames.{quiet}
use v_net.NetQueue.Element.{NetworkElement, SocketData}
use v_net.NetQueue.Process.Follow.{
  or_failed, no_tun, write_side, Does, Matches, Follows, at_place, round-Follows,
}

module _ {W V : Type 0} (R : W → V → NetworkElement → Type 0) where
  -- A failure stays until the end.
  module _ (o : ByteOrder) (f : W → SocketData → Option W) where
    abbrev HasFailed : Round (Option W) → Type 0
    HasFailed (goes_on a) = a.world ≡ none
    HasFailed (returns a) = a.world ≡ none
    HasFailed faults = Unit

    round-HasFailed :
        (l : Loop (Option W)) → l.world ≡ none → HasFailed (round o (quiet (or_failed f) no_tun) l)
    unfolding round in_header in_payload in_ready in_tun_receive in_tun_ready
    round-HasFailed l e = ground (arith, e)

    after_round-failed :
        (fuel : ℕ) (a : Round (Option W)) (l' : Loop (Option W))
        → ((l : Loop (Option W))
            → l.world ≡ none
            → process o (quiet (or_failed f) no_tun) fuel l ≡ finished l'
            → l'.world ≡ none)
        → HasFailed a
        → after_round (process o (quiet (or_failed f) no_tun) fuel) a ≡ finished l'
        → l'.world ≡ none
    after_round-failed fuel (goes_on a) l' again failed e = again a failed e
    after_round-failed fuel (returns a) l' again failed e = ground (arith, failed)
    after_round-failed fuel faults l' again failed e = absurd (ground arith)

    process-failed :
        (fuel : ℕ) (l l' : Loop (Option W))
        → l.world ≡ none
        → process o (quiet (or_failed f) no_tun) fuel l ≡ finished l'
        → l'.world ≡ none
    unfolding process
    process-failed zero l l' failed e = absurd (ground arith)
    process-failed (suc fuel) l l' failed e =
        after_round-failed fuel (round o (quiet (or_failed f) no_tun) l) l'
          (λ l failed e. process-failed fuel l l' failed e) (round-HasFailed l failed) e

  module _ (o : ByteOrder) (f : W → SocketData → Option W) (h : Handler V) (does : Does R f h) where
    -- The end of the concrete loop.
    abbrev Ends : Outcome V → Loop (Option W) → W → Type 0
    Ends x l' w' = (end : Loop V) × (x ≡ finished end) × Matches R w' l' end

    after_round-Ends :
        (fuel : ℕ) (a : Round (Option W)) (b : Round V) (l' : Loop (Option W)) (w' : W)
        → ((w : W) (l : Loop V)
            → R w l.world (write_side l.element)
            → process o (quiet (or_failed f) no_tun) fuel (at_place R w l) ≡ finished l'
            → Ends (process o h fuel l) l' w')
        → Follows R a b
        → after_round (process o (quiet (or_failed f) no_tun) fuel) a ≡ finished l'
        → l'.world ≡ some w'
        → Ends (after_round (process o h fuel) b) l' w'
    after_round-Ends fuel (goes_on a) (goes_on b) l' w' again (inl failed) e good =
        absurd (ground (arith, process-failed o f fuel a l' failed e, good))
    after_round-Ends fuel (goes_on a) (goes_on b) l' w' again (inr (w, (same, r))) e good =
        again w b r (ap (process o (quiet (or_failed f) no_tun) fuel) (sym same) ∙ e)
    after_round-Ends fuel (goes_on a) (returns b) l' w' again failed e good =
        absurd (ground (arith, process-failed o f fuel a l' failed e, good))
    after_round-Ends fuel (goes_on a) faults l' w' again failed e good =
        absurd (ground (arith, process-failed o f fuel a l' failed e, good))
    after_round-Ends fuel (returns a) (goes_on b) l' w' again failed e good =
        absurd (ground (arith, failed, good))
    after_round-Ends fuel (returns a) (returns b) l' w' again (inl failed) e good =
        absurd (ground (arith, failed, good))
    after_round-Ends fuel (returns a) (returns b) l' w' again (inr (w, (same, r))) e good =
        let last : l' ≡ at_place R w b = ground (arith, same) in
        let same_state : w ≡ w' = ground (arith, last, good) in
        (b, refl, subst (λ x. Matches R x l' b) same_state (last, r))
    after_round-Ends fuel (returns a) faults l' w' again failed e good =
        absurd (ground (arith, failed, good))
    after_round-Ends fuel faults b l' w' again x e good = absurd (ground arith)

    -- A loop that ends without failing under the smaller state ends in the same place under the
    -- other one.
    pub process-Ends :
        (fuel : ℕ) (w : W) (l : Loop V) (l' : Loop (Option W)) (w' : W)
        → R w l.world (write_side l.element)
        → process o (quiet (or_failed f) no_tun) fuel (at_place R w l) ≡ finished l'
        → l'.world ≡ some w'
        → (end : Loop V) × (process o h fuel l ≡ finished end) × Matches R w' l' end
    unfolding process
    process-Ends zero w l l' w' r e good = absurd (ground arith)
    process-Ends (suc fuel) w l l' w' r e good =
        after_round-Ends fuel (round o (quiet (or_failed f) no_tun) (at_place R w l)) (round o h l)
          l' w' (λ w l r e. process-Ends fuel w l l' w' r e good) (round-Follows R o f h does w l r)
          e good
