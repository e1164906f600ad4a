-- ===== src/Switch/Tokens.antt =====
-- The connection tokens of the switch of src/switch/setup.cpp: what the conductor announces and
-- what an agent gets for presenting one.
use v_net.Base.{
  refl, ◌-◌, ltb, inr, inl, ℕ, ℤ, Option, none, some, List, [], ◌∷◌, ◌≡◌, arith, ◌+◌, ◌≤◌, Bool,
  true, false, nat_eq, ◌==◌, if◌then◌else◌, Text, Option-cases,
}
use v_net.Base.Map.{find, erase_if, find-insert, find-erase}
use v_net.Switch.{
  token_expiry, try_hb, try_hbs, queue_send_heartbeat, SwitchState, QueueCall, queue_close,
  queue_send_accepted, on_auth_connect_to_switch, start, accept_agent, PendingToken,
  on_agent_connection_token, expire_tokens, on_close, send_heartbeats,
}
use v_net.Switch.Run.{Event, accepts, announces, authenticates, closes, ticks, step, run}

-- The announcements of a token among the events.
pub announcements : ℕ → List Event → ℕ
announcements t [] = 0
announcements t (announces token agent now ∷ es) =
    announcements t es + (if token == t then 1 else 0)
announcements t (accepts put p fd now ∷ es) = announcements t es
announcements t (authenticates p fd token ∷ es) = announcements t es
announcements t (closes p ∷ es) = announcements t es
announcements t (ticks now later ∷ es) = announcements t es

sends_accepted : List QueueCall → Bool
sends_accepted [] = false
sends_accepted (queue_send_accepted fd ∷ calls) = true
sends_accepted (queue_close fd ∷ calls) = sends_accepted calls
sends_accepted (queue_send_heartbeat fd ∷ calls) = sends_accepted calls

presents : ℕ → Event → Bool
presents t (authenticates p fd token) = token == t
presents t (announces token agent now) = false
presents t (accepts put p fd now) = false
presents t (closes p) = false
presents t (ticks now later) = false

-- One step in which the token is presented and the acceptance is sent.
granted : ℕ → Event → SwitchState → ℕ
granted t e s = elim (step e s) [
  | none ↦ 0
  | some (s', calls) ↦ if presents t e then (if sends_accepted calls then 1 else 0) else 0
]

-- How often presenting the token got a connection accepted.
pub grants : ℕ → List Event → SwitchState → ℕ
grants t [] s = 0
grants t (e ∷ es) s =
    grants t es s + (elim (run es s) [ none ↦ 0 | some (s', calls) ↦ granted t e s' ])

-- 1 when the switch knows the token.
pending : ℕ → SwitchState → ℕ
pending t s = elim (find t s.pending_tokens) [ none ↦ 0 | some w ↦ 1 ]

-- Dropping entries makes no token known.
pending-erase_if :
    (p : PendingToken → Bool) (t : ℕ) (m : List (ℕ × PendingToken))
    → find t m ≡ none
    → find t (erase_if p m) ≡ none
unfolding find erase_if
pending-erase_if p t [] h = h
pending-erase_if p t ((j, w) ∷ m) h = ground (arith, pending-erase_if p t m)

close-tokens :
    (p : Option ℕ) (s s' : SwitchState)
    → on_close p s ≡ some s'
    → s'.pending_tokens ≡ s.pending_tokens
unfolding on_close
close-tokens none s s' h = ground arith
close-tokens (some p) s s' h = elim (Option-cases (find p s.conns)) [
  | inl e ↦ ground arith
  | inr (info, e) ↦ ground arith
]

beat-tokens :
    (now p : ℕ) (s s' : SwitchState) (sent : List QueueCall)
    → try_hb now p s ≡ some (s', sent)
    → s'.pending_tokens ≡ s.pending_tokens
unfolding try_hb
beat-tokens now p s s' sent h = elim (Option-cases (find p s.conns)) [
  | inl e ↦ ground arith
  | inr (info, e) ↦ ground arith
]

beats-tokens :
    (now : ℕ) (ps : List ℕ) (s s' : SwitchState) (sent : List QueueCall)
    → try_hbs now ps s ≡ some (s', sent)
    → s'.pending_tokens ≡ s.pending_tokens
unfolding try_hbs
beats-tokens now [] s s' sent h = ground arith
beats-tokens now (p ∷ ps) s s' sent h = elim (Option-cases (try_hb now p s)) [
  | inl e ↦ absurd (ground arith)
  | inr ((m, first), e) ↦ elim (Option-cases (try_hbs now ps m)) [
    | inl f ↦ absurd (ground arith)
    | inr ((n, more), f) ↦
        ground (arith, beat-tokens now p s m first e, beats-tokens now ps m n more f)
  ]
]

send_heartbeats-tokens :
    (now : ℕ) (s s' : SwitchState) (sent : List QueueCall)
    → send_heartbeats now s ≡ some (s', sent)
    → s'.pending_tokens ≡ s.pending_tokens
unfolding send_heartbeats
send_heartbeats-tokens now s s' sent h = elim (Option-cases s.conductor) [
  | inl e ↦ beats-tokens now s.agents s s' sent (ground arith)
  | inr (p, e) ↦ elim (Option-cases (try_hb now p s)) [
    | inl g ↦ absurd (ground arith)
    | inr ((m, first), g) ↦ elim (Option-cases (try_hbs now m.agents m)) [
      | inl f ↦ absurd (ground arith)
      | inr ((n, more), f) ↦
          ground (arith, beat-tokens now p s m first g, beats-tokens now m.agents m n more f)
    ]
  ]
]

-- One step pays for a grant with a known token, and makes one known by an announcement only.
step-pending :
    (t : ℕ) (e : Event) (s s' : SwitchState) (calls : List QueueCall)
    → step e s ≡ some (s', calls)
    → granted t e s + pending t s' ≤ announcements t (e ∷ []) + pending t s
unfolding granted announcements pending step presents on_auth_connect_to_switch sends_accepted
    accept_agent on_agent_connection_token expire_tokens
step-pending t (accepts put p fd now) s s' calls h = ground arith
step-pending t (announces token agent now) s s' calls h =
    ground
      (arith, find-insert token t (record { agent_name = agent; created = now }) s.pending_tokens)
step-pending t (authenticates p fd token) s s' calls h =
    elim (Option-cases (find token s.pending_tokens)) [
      | inl e ↦ ground arith
      | inr (w, e) ↦ elim (Option-cases (find p s.conns)) [
        | inl f ↦ absurd (ground arith)
        | inr (info, f) ↦ ground (arith, find-erase token t s.pending_tokens)
      ]
    ]
step-pending t (closes p) s s' calls h = elim (Option-cases (on_close p s)) [
  | inl e ↦ absurd (ground arith)
  | inr (m, e) ↦ ground (arith, close-tokens p s m e)
]
step-pending t (ticks now later) s s' calls h = ground (
  arith,
  send_heartbeats-tokens later (expire_tokens now s) s' calls h,
  pending-erase_if (λ w. ltb token_expiry (now - w.created)) t s.pending_tokens,
)

announcements-cons :
    (t : ℕ) (e : Event) (es : List Event)
    → announcements t (e ∷ es) ≡ announcements t es + announcements t (e ∷ [])
unfolding announcements
announcements-cons t (accepts put p fd now) es = omega arith
announcements-cons t (announces token agent now) es = omega arith
announcements-cons t (authenticates p fd token) es = omega arith
announcements-cons t (closes p) es = omega arith
announcements-cons t (ticks now later) es = omega arith

run-pending :
    (t : ℕ) (es : List Event) (s s' : SwitchState) (calls : List QueueCall)
    → run es s ≡ some (s', calls)
    → grants t es s + pending t s' ≤ announcements t es + pending t s
unfolding run grants
run-pending t [] s s' calls h = ground arith
run-pending t (e ∷ es) s s' calls h = elim (Option-cases (run es s)) [
  | inl f ↦ absurd (ground arith)
  | inr ((m, before), f) ↦ elim (Option-cases (step e m)) [
    | inl g ↦ absurd (ground arith)
    | inr ((n, now), g) ↦ ground (
      arith,
      run-pending t es s m before f,
      step-pending t e m n now g,
      announcements-cons t e es,
    )
  ]
]

-- Also when the run ends in a fault.
grants-pending :
    (t : ℕ) (es : List Event) (s : SwitchState) → grants t es s ≤ announcements t es + pending t s
unfolding grants
grants-pending t [] s = omega arith
grants-pending t (e ∷ es) s = elim (Option-cases (run es s)) [
  | inl f ↦ ground (arith, grants-pending t es s, announcements-cons t e es)
  | inr ((m, before), f) ↦ elim (Option-cases (step e m)) [
    | inl g ↦
        let none_granted : granted t e m ≡ 0 = unfold granted in ground arith in
        ground (arith, grants-pending t es s, announcements-cons t e es, none_granted)
    | inr ((n, now), g) ↦ ground (
      arith,
      run-pending t es s m before f,
      step-pending t e m n now g,
      announcements-cons t e es,
    )
  ]
]

-- However the events come, a token gets at most as many connections accepted as the conductor
-- announced it times: each announcement serves for one agent.
pub grants-announcements :
    (t p : ℕ) (name : Text) (fd : ℤ) (now : ℕ) (es : List Event)
    → grants t es (start p name fd now) ≤ announcements t es
grants-announcements t p name fd now es =
    let unknown : pending t (start p name fd now) ≡ 0 = unfold pending start find in refl in
    omega (arith, unknown, grants-pending t es (start p name fd now))
