-- ===== src/Switch/Enter.antt =====
-- What the switch of src/switch/setup.cpp has done when it reaches its event loop.
use v_net.Base.{
  if◌then◌else◌, ℤ, List, [], ◌∷◌, ◌≡◌, refl, ◌∙◌, arith, inl, inr, Bool-cases, is_neg,
}
use v_net.Sockets.{Deed, opens, closes, sends, Ending, succeeds, fails, waits}
use v_net.Sockets.Connect.{Stage, exits, enters, before, if_sent}
use v_net.Sockets.Held.{
  connect_from-held, connect_from-sent, held, held-append, sent, sent-append, connect_from-held,
  connect_from-sent,
}
use v_net.Switch.Join.{
  Surroundings, send_mip, create_listener, introduce, register, connect_with_retry,
}

create_listener-enters :
    (e : Surroundings) (cdt_sock a b : ℤ)
    → (create_listener e cdt_sock).1 ≡ enters a b
    → (a ≡ cdt_sock) × ((create_listener e cdt_sock).0 ≡ opens b ∷ [])
unfolding create_listener
create_listener-enters e cdt_sock a b h = ground (arith)

if_sent-enters :
    (ending : Ending) (cleanup : List Deed) (next : List Deed × Stage) (a b : ℤ)
    → (if_sent ending cleanup next).1 ≡ enters a b
    → (ending ≡ succeeds) × (next.1 ≡ enters a b)
unfolding if_sent
if_sent-enters succeeds cleanup next a b h = (refl, h)
if_sent-enters fails cleanup next a b h = ground arith
if_sent-enters waits cleanup next a b h = ground arith

introduce-enters :
    (e : Surroundings) (cdt_sock a b : ℤ)
    → (introduce e cdt_sock).1 ≡ enters a b
    → ((send_mip e).ending ≡ succeeds)
      × (a ≡ cdt_sock)
      × ((introduce e cdt_sock).0 ≡ sends a (send_mip e).wire ∷ opens b ∷ [])
unfolding introduce if_sent
introduce-enters e cdt_sock a b h =
    let (done, listening) =
      if_sent-enters (send_mip e).ending (closes cdt_sock ∷ []) (create_listener e cdt_sock) a b
        h in
    let (same, opened) = create_listener-enters e cdt_sock a b listening in
    (done, same, rw (done, same, opened) refl)

-- From the result of the attempts on.
abbrev attempted : Surroundings → List Deed × ℤ → List Deed × Stage
attempted e (deeds, cdt_sock) =
    before deeds (if is_neg cdt_sock then ([], exits) else introduce e cdt_sock)

attempted-enters :
    (e : Surroundings) (deeds : List Deed) (fd a b : ℤ)
    → held [] deeds ≡ (if is_neg fd then [] else fd ∷ [])
    → sent deeds ≡ []
    → (attempted e (deeds, fd)).1 ≡ enters a b
    → ((send_mip e).ending ≡ succeeds)
      × (sent (attempted e (deeds, fd)).0 ≡ (a, (send_mip e).wire) ∷ [])
      × (held [] (attempted e (deeds, fd)).0 ≡ b ∷ a ∷ [])
unfolding held sent
attempted-enters e deeds fd a b got quiet h = elim (Bool-cases (is_neg fd)) [
  | inl missing ↦ absurd (ground (arith, missing))
  | inr reached ↦
      let (done, same, did) = introduce-enters e fd a b (ground (arith, reached)) in
      let one : held [] deeds ≡ a ∷ [] = got ∙ (rw (reached, same) refl) in
      (
        done,
        rw (reached, did) (sent-append deeds _ ∙ (rw quiet refl)),
        rw (reached, did) (held-append [] deeds _ ∙ (rw one refl)),
      )
]

-- A switch that reaches its event loop has sent its registration whole, on the conductor's socket
-- and nothing else, and holds that socket and its listener.
pub register-enters :
    (e : Surroundings) (cdt_sock listener : ℤ)
    → (register e).1 ≡ enters cdt_sock listener
    → ((send_mip e).ending ≡ succeeds)
      × (sent (register e).0 ≡ (cdt_sock, (send_mip e).wire) ∷ [])
      × (held [] (register e).0 ≡ listener ∷ cdt_sock ∷ [])
unfolding register connect_with_retry held sent
register-enters e a b h =
    let connecting = e.connecting e.conductor_cfg in
    let r = connect_with_retry connecting in
    attempted-enters e r.0 r.1 a b (connect_from-held [] connecting 1 20)
      (connect_from-sent connecting 1 20) h
