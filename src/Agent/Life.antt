-- ===== src/Agent/Life.antt =====
-- The agent of src/agent/setup.cpp from its first connection to any point of its event loop.
use v_net.Base.{
  ℕ, ℤ, Option, none, some, List, [], ◌∷◌, ◌++◌, ◌≡◌, ◌≢◌, refl, arith, nat_eq, inl, inr,
  Bool-cases, Option-cases, is_neg, not, leb, ◌&&◌, ◌-◌, ◌>>=◌,
}
use v_net.Base.Map.{find, insert, erase, find-insert, find-erase}
use v_net.Sockets.Held.{Holds}
use v_net.Agent.Join.{join-Holds}
use v_net.Agent.{
  Surroundings, enter_loop, join, Surroundings, ConnInfo, AgentState, enter_loop, forget, on_close,
  heartbeat_interval, try_hb, send_heartbeats,
}

-- What happens in the event loop: `onClose`, and the heartbeats at the end of a round.
pub data Event : Type 0 where
  closes : Option ℕ → Event
  ticks : ℕ → Event

unfoldable pub react : Event → AgentState → Option (AgentState × List ℤ)
react (closes p) s = do s' ← on_close p s; some (s', [])
react (ticks now) s = send_heartbeats now s

-- The events from the last to the first.
unfoldable pub reacts : List Event → AgentState → Option AgentState
reacts [] s = some s
reacts (e ∷ es) s = do s' ← reacts es s; (s'', sent) ← react e s'; some s''

-- Both pointers are null or live.
unfoldable pub IsSound : AgentState → Type 0
IsSound s =
    ((p : ℕ) → s.conductor ≡ some p → find p s.conns ≢ none)
    × ((p : ℕ) → s.sw ≡ some p → find p s.conns ≢ none)

-- A connection is closed once, while it is live.
unfoldable pub AreAdmissible : List Event → AgentState → Type 0
AreAdmissible [] s = Unit
AreAdmissible (closes none ∷ es) s = AreAdmissible es s
AreAdmissible (closes (some p) ∷ es) s =
    ((s' : AgentState) → reacts es s ≡ some s' → find p s'.conns ≢ none) × AreAdmissible es s
AreAdmissible (ticks now ∷ es) s = AreAdmissible es s

pub enter_loop-IsSound :
    (p q : ℕ) (a b : ℤ) (now later : ℕ) → IsSound (enter_loop p q a b now later).0
unfolding IsSound enter_loop find insert
enter_loop-IsSound p q a b now later =
    ((λ r e gone. ground (arith, e, gone)), (λ r e gone. ground (arith, e, gone)))

forget-some : (p q : ℕ) (c : Option ℕ) → forget p c ≡ some q → (c ≡ some q) × (p ≢ q)
unfolding forget
forget-some p q none h = ground arith
forget-some p q (some x) h = ground arith

pub close-IsSound :
    (p : ℕ) (s : AgentState)
    → IsSound s
    → find p s.conns ≢ none
    → (s' : AgentState) × (on_close (some p) s ≡ some s') × IsSound s'
unfolding on_close IsSound
close-IsSound p s sound live = elim (Option-cases (find p s.conns)) [
  | inl gone ↦ absurd (live gone)
  | inr (info, found) ↦ (
    record s { conns = erase p s.conns; conductor = forget p s.conductor; sw = forget p s.sw },
    rw found refl,
    (
      (λ r e gone.
          ground (arith, gone, find-erase p r s.conns, sound.0 r, forget-some p r s.conductor e)),
      (λ r e gone. ground (arith, gone, find-erase p r s.conns, sound.1 r, forget-some p r s.sw e)),
    ),
  )
]

-- A heartbeat keeps both pointers, and what is live.
try_hb-IsSound :
    (now : ℕ) (c : Option ℕ) (s : AgentState)
    → IsSound s
    → ((p : ℕ) → c ≡ some p → find p s.conns ≢ none)
    → (s' : AgentState) × (sent : List ℤ) × (try_hb now c s ≡ some (s', sent)) × IsSound s'
unfolding try_hb IsSound
try_hb-IsSound now none s sound live = (s, [], refl, sound)
try_hb-IsSound now (some p) s sound live = elim (Option-cases (find p s.conns)) [
  | inl gone ↦ absurd (live p refl gone)
  | inr (info, found) ↦
      elim (Bool-cases (not (is_neg info.fd) && leb heartbeat_interval (now - info.last_hb_sent))) [
        | inl e ↦
            let beaten : ConnInfo = record info { last_hb_sent = now } in
            (
              record s { conns = insert p beaten s.conns },
              info.fd ∷ [],
              ground arith,
              (
                (λ r e' gone. ground (arith, gone, find-insert p r beaten s.conns, sound.0 r e')),
                (λ r e' gone. ground (arith, gone, find-insert p r beaten s.conns, sound.1 r e')),
              ),
            )
        | inr e ↦ (s, [], ground arith, sound)
      ]
]

pub beats-IsSound :
    (now : ℕ) (s : AgentState)
    → IsSound s
    → (s' : AgentState) × (sent : List ℤ) × (send_heartbeats now s ≡ some (s', sent)) × IsSound s'
unfolding send_heartbeats
beats-IsSound now s sound =
    let (s1, sent, first, sound1) =
      try_hb-IsSound now s.conductor s sound (unfold IsSound in sound.0) in
    let (s2, more, second, sound2) =
      try_hb-IsSound now s1.sw s1 sound1 (unfold IsSound in sound1.1) in
    (s2, sent ++ more, rw (first, second) refl, sound2)

reacts-IsSound :
    (es : List Event) (s : AgentState)
    → IsSound s
    → AreAdmissible es s
    → (s' : AgentState) × (reacts es s ≡ some s') × IsSound s'
unfolding reacts react AreAdmissible on_close
reacts-IsSound [] s sound ok = (s, refl, sound)
reacts-IsSound (closes none ∷ es) s sound ok =
    let (s1, before, sound1) = reacts-IsSound es s sound ok in (s1, rw before refl, sound1)
reacts-IsSound (closes (some p) ∷ es) s sound ok =
    let (s1, before, sound1) = reacts-IsSound es s sound ok.1 in
    let (s2, closed, sound2) = close-IsSound p s1 sound1 (ok.0 s1 before) in
    (s2, rw (before, closed) refl, sound2)
reacts-IsSound (ticks now ∷ es) s sound ok =
    let (s1, before, sound1) = reacts-IsSound es s sound ok in
    let (s2, sent, done, sound2) = beats-IsSound now s1 sound1 in
    (s2, rw (before, done) refl, sound2)

-- Whatever the peers and the system do up to the event loop: an agent that gives up has closed every
-- socket that it opened, and one that enters its event loop holds exactly the conductor's and the
-- switch's. From there on, with any two sockets, over any sequence of heartbeat rounds and of
-- closings of live connections, no deleted object is used and both pointers stay null or live.
pub reacts-join :
    (e : Surroundings) (fuel p q now later : ℕ) (a b : ℤ) (es : List Event)
    → AreAdmissible es (enter_loop p q a b now later).0
    → Holds [] (join e fuel)
      × ((s' : AgentState) × (reacts es (enter_loop p q a b now later).0 ≡ some s') × IsSound s')
reacts-join e fuel p q now later a b es ok = (
  join-Holds e fuel,
  reacts-IsSound es (enter_loop p q a b now later).0 (enter_loop-IsSound p q a b now later) ok,
)
