-- ===== src/Sockets/Held.antt =====
-- The sockets that a program holds after what it did to them.
use v_net.Base.{
  subst, ℕ, zero, suc, ℤ, List, [], ◌∷◌, ◌++◌, ◌≡◌, refl, sym, ap, ◌∙◌, arith, ◌==◌, int_eq,
  if◌then◌else◌, is_neg, ◌+◌, inl, inr, Bool-cases,
}
use v_net.Sockets.{
  Deed, opens, closes, sends, Connecting, connect_to, Ending, succeeds, fails, waits, Reply, gives,
  refuses, hangs, runs_on,
}
use v_net.Sockets.Connect.{
  Stage, exits, waits_on_peer, still_reads, enters, before, connect_from, if_sent, if_read,
}

-- The first socket of that number is no longer held.
unfoldable pub close_one : ℤ → List ℤ → List ℤ
close_one fd [] = []
close_one fd (x ∷ xs) = let rest = close_one fd xs in if x == fd then xs else x ∷ rest

-- The sockets held after the deeds, from those held before.
unfoldable pub held : List ℤ → List Deed → List ℤ
unfolding close_one
held socks [] = socks
held socks (opens fd ∷ deeds) = held (fd ∷ socks) deeds
held socks (closes fd ∷ deeds) = held (close_one fd socks) deeds
held socks (sends fd bytes ∷ deeds) = held socks deeds

pub held-append :
    (socks : List ℤ) (deeds more : List Deed)
    → held socks (deeds ++ more) ≡ held (held socks deeds) more
unfolding held
held-append socks [] more = refl
held-append socks (opens fd ∷ deeds) more = held-append (fd ∷ socks) deeds more
held-append socks (closes fd ∷ deeds) more = held-append (close_one fd socks) deeds more
held-append socks (sends fd bytes ∷ deeds) more = held-append socks deeds more

pub close_one-first : (fd : ℤ) (socks : List ℤ) → close_one fd (fd ∷ socks) ≡ socks
unfolding close_one
close_one-first fd socks = ground (arith, int_eq.same_iff fd fd)

-- With the socket that a call gave, unless it is negative.
abbrev pub with_sock : List ℤ → ℤ → List ℤ
with_sock socks fd = if is_neg fd then socks else fd ∷ socks

-- An attempt holds one more socket exactly if it gives one.
connect_to-held :
    (socks : List ℤ) (c : Connecting)
    → held socks (connect_to c).0 ≡ with_sock socks (connect_to c).1
unfolding held connect_to
connect_to-held socks c = ground (arith, close_one-first c.socket socks)

pub connect_from-held :
    (socks : List ℤ) (connecting : ℕ → Connecting) (attempt n : ℕ)
    → held socks (connect_from connecting attempt n).0 ≡ (
        if is_neg (connect_from connecting attempt n).1
        then socks
        else (connect_from connecting attempt n).1 ∷ socks)
unfolding connect_from held
connect_from-held socks connecting attempt zero = refl
connect_from-held socks connecting attempt (suc n) =
    let c = connecting attempt in
    let rest = connect_from connecting (attempt + 1) n in
    elim (Bool-cases (is_neg (connect_to c).1)) [
      | inl failed ↦
          let none_new : held socks (connect_to c).0 ≡ socks =
            connect_to-held socks c ∙ (rw failed refl) in
          rw failed (
            held-append socks (connect_to c).0 rest.0
            ∙ ap (λ h. held h rest.0) none_new
            ∙ connect_from-held socks connecting (attempt + 1) n)
      | inr reached ↦ rw reached (connect_to-held socks c ∙ (rw reached refl))
    ]

-- What the process holds at a stage: nothing once it has returned, both sockets in the event
-- loop.
unfoldable pub Holds : List ℤ → List Deed × Stage → Type 0
Holds socks (deeds, exits) = held socks deeds ≡ []
Holds socks (deeds, enters cdt_sock sw_sock) = held socks deeds ≡ sw_sock ∷ cdt_sock ∷ []
Holds socks (deeds, waits_on_peer) = Unit
Holds socks (deeds, still_reads) = Unit

pub before-Holds :
    (socks : List ℤ) (deeds : List Deed) (r : List Deed × Stage)
    → Holds (held socks deeds) r
    → Holds socks (before deeds r)
unfolding Holds
before-Holds socks deeds (more, exits) h = held-append socks deeds more ∙ h
before-Holds socks deeds (more, enters a b) h = held-append socks deeds more ∙ h
before-Holds socks deeds (more, waits_on_peer) h = tt
before-Holds socks deeds (more, still_reads) h = tt

pub if_sent-Holds :
    (socks : List ℤ) (ending : Ending) (cleanup : List Deed) (next : List Deed × Stage)
    → held socks cleanup ≡ []
    → Holds socks next
    → Holds socks (if_sent ending cleanup next)
unfolding Holds if_sent
if_sent-Holds socks succeeds cleanup next c h = h
if_sent-Holds socks fails cleanup next c h = c
if_sent-Holds socks waits cleanup next c h = tt

pub if_read-Holds :
    {A : Type 0} (socks : List ℤ) (r : Reply A) (cleanup : List Deed) (next : A → List Deed × Stage)
    → held socks cleanup ≡ []
    → ((a : A) → Holds socks (next a))
    → Holds socks (if_read r cleanup next)
unfolding Holds if_read
if_read-Holds socks (gives a s) cleanup next c h = h a
if_read-Holds socks (refuses s) cleanup next c h = c
if_read-Holds socks hangs cleanup next c h = tt
if_read-Holds socks runs_on cleanup next c h = tt

-- A connection that is tried for: without one nothing new is held.
pub connect-Holds :
    (socks : List ℤ) (connecting : ℕ → Connecting) (attempt n : ℕ) (failed : List Deed × Stage)
    (next : ℤ → List Deed × Stage)
    → Holds socks failed
    → ((fd : ℤ) → Holds (fd ∷ socks) (next fd))
    → Holds socks (
        before (connect_from connecting attempt n).0 (
          if is_neg (connect_from connecting attempt n).1
          then failed
          else next (connect_from connecting attempt n).1))
connect-Holds socks connecting attempt n failed next f h =
    let r = connect_from connecting attempt n in
    let got = connect_from-held socks connecting attempt n in
    elim (Bool-cases (is_neg r.1)) [
      | inl missing ↦
          let same : held socks r.0 ≡ socks = got ∙ (rw missing refl) in
          before-Holds socks r.0 _ (rw missing (subst (λ l. Holds l failed) (sym same) f))
      | inr reached ↦
          let more : held socks r.0 ≡ r.1 ∷ socks = got ∙ (rw reached refl) in
          before-Holds socks r.0 _ (rw reached (subst (λ l. Holds l (next r.1)) (sym more) (h r.1)))
    ]

-- What went out, with the socket that it went out on.
unfoldable pub sent : List Deed → List (ℤ × List ℕ)
sent [] = []
sent (opens fd ∷ deeds) = sent deeds
sent (closes fd ∷ deeds) = sent deeds
sent (sends fd bytes ∷ deeds) = (fd, bytes) ∷ sent deeds

pub sent-append : (deeds more : List Deed) → sent (deeds ++ more) ≡ sent deeds ++ sent more
unfolding sent
sent-append [] more = refl
sent-append (opens fd ∷ deeds) more = sent-append deeds more
sent-append (closes fd ∷ deeds) more = sent-append deeds more
sent-append (sends fd bytes ∷ deeds) more = ap (λ l. (fd, bytes) ∷ l) (sent-append deeds more)

connect_to-sent : (c : Connecting) → sent (connect_to c).0 ≡ []
unfolding sent connect_to
connect_to-sent c = ground arith

-- Trying to connect sends nothing.
pub connect_from-sent :
    (connecting : ℕ → Connecting) (attempt n : ℕ) → sent (connect_from connecting attempt n).0 ≡ []
unfolding connect_from sent
connect_from-sent connecting attempt zero = refl
connect_from-sent connecting attempt (suc n) =
    let c = connecting attempt in
    let rest = connect_from connecting (attempt + 1) n in
    elim (Bool-cases (is_neg (connect_to c).1)) [
      | inl failed ↦ rw failed (
          sent-append (connect_to c).0 rest.0
          ∙ ap (λ l. l ++ sent rest.0) (connect_to-sent c)
          ∙ connect_from-sent connecting (attempt + 1) n)
      | inr reached ↦ rw reached (connect_to-sent c)
    ]
