-- ===== src/Switch/Sound.antt =====
-- The pointers that the switch of src/switch/setup.cpp keeps are live.
use v_net.Base.{
  Bool, ◌-◌, leb, nat_eq, ◌&&◌, inr, is_neg, refl, ◌==◌, if◌then◌else◌, inl, not, ◌∙◌, Bool-cases,
  Option-cases, ◌++◌, ℤ, ℕ, Option, none, some, List, [], ◌∷◌, ◌≡◌, true, arith, ◌≢◌,
}
use v_net.Base.Heap.{field_at, field_at-insert, field_at-erase, field_at-find}
use v_net.Base.Map.{find, insert, erase}
use v_net.Base.Pointers.{member, member-remove, member-append}
use v_net.Switch.{
  agent_pending, conductor_conn, ConnRole, forget_agent, queue_send_heartbeat, heartbeat_interval,
  queue_send_accepted, queue_close, ConnInfo, forget_conductor, SwitchState, QueueCall,
  agent_authenticated, on_close, on_auth_connect_to_switch, accept_agent, send_heartbeats, try_hb,
  try_hbs, expire_tokens, on_agent_connection_token,
}
use v_net.Switch.Run.{Event, accepts, announces, authenticates, closes, ticks, step, role_of}

-- Every agent is a live connection that has authenticated, and the conductor's is live.
unfoldable pub IsSound : SwitchState → Type 0
IsSound s =
    ((p : ℕ) → member p s.agents ≡ true → role_of p s.conns ≡ some agent_authenticated)
    × ((p : ℕ) → s.conductor ≡ some p → role_of p s.conns ≢ none)

-- What the queue and the allocator see to: a handler is given a live pointer, `new` a fresh one.
unfoldable pub IsAdmissible : Event → SwitchState → Type 0
IsAdmissible (accepts put p fd now) s = role_of p s.conns ≡ none
IsAdmissible (announces token agent now) s = Unit
IsAdmissible (authenticates p fd token) s = role_of p s.conns ≢ none
IsAdmissible (closes none) s = Unit
IsAdmissible (closes (some p)) s = role_of p s.conns ≢ none
IsAdmissible (ticks now later) s = Unit

-- What a heartbeat leaves alone.
abbrev Same : SwitchState → SwitchState → Type 0
Same s s' =
    ((q : ℕ) → role_of q s'.conns ≡ role_of q s.conns)
    × (s'.agents ≡ s.agents)
    × (s'.conductor ≡ s.conductor)

role_of-insert :
    (p q : ℕ) (info : ConnInfo) (m : List (ℕ × ConnInfo))
    → role_of q (insert p info m) ≡ (if p == q then some info.role else role_of q m)
unfolding role_of field_at
role_of-insert p q info m = field_at-insert (λ info. info.role) p q info m

role_of-erase :
    (p q : ℕ) (m : List (ℕ × ConnInfo))
    → role_of q (erase p m) ≡ (if p == q then none else role_of q m)
unfolding role_of field_at
role_of-erase p q m = field_at-erase (λ info. info.role) p q m

-- The object of a live pointer.
live-find :
    (p : ℕ) (m : List (ℕ × ConnInfo))
    → role_of p m ≢ none
    → (info : ConnInfo) × (find p m ≡ some info) × (role_of p m ≡ some info.role)
unfolding role_of field_at
live-find p m live = field_at-find (λ info. info.role) p m live

try_hb-Same :
    (now p : ℕ) (s : SwitchState)
    → role_of p s.conns ≢ none
    → (s' : SwitchState) × (sent : List QueueCall) × (try_hb now p s ≡ some (s', sent)) × Same s s'
unfolding try_hb
try_hb-Same now p s live =
    let (info, found, role) = live-find p s.conns live in
    elim (Bool-cases (not (is_neg info.fd) && leb heartbeat_interval (now - info.last_hb_sent))) [
      | inl e ↦ (
        record s { conns = insert p (record info { last_hb_sent = now }) s.conns },
        queue_send_heartbeat info.fd ∷ [],
        ground arith,
        (
          (λ q.
              ground
                (arith, role, role_of-insert p q (record info { last_hb_sent = now }) s.conns)),
          refl,
          refl,
        ),
      )
      | inr e ↦ (s, [], ground arith, ((λ q. refl), refl, refl))
    ]

try_hbs-Same :
    (now : ℕ) (ps : List ℕ) (s : SwitchState)
    → ((p : ℕ) → member p ps ≡ true → role_of p s.conns ≢ none)
    → (s' : SwitchState) × (sent : List QueueCall) × (try_hbs now ps s ≡ some (s', sent))
      × Same s s'
unfolding try_hbs member
try_hbs-Same now [] s live = (s, [], refl, ((λ q. refl), refl, refl))
try_hbs-Same now (p ∷ ps) s live =
    let (s', sent, first, same) = try_hb-Same now p s (live p (ground arith)) in
    let (s'', more, others, same') =
      try_hbs-Same now ps s' (λ q m e. live q (ground arith) (ground (arith, same.0 q))) in
    (
      s'',
      sent ++ more,
      ground arith,
      ((λ q. same'.0 q ∙ same.0 q), same'.1 ∙ same.1, same'.2 ∙ same.2),
    )

forget_conductor-some :
    (p q : ℕ) (c : Option ℕ) → forget_conductor p c ≡ some q → (c ≡ some q) × (p ≢ q)
unfolding forget_conductor
forget_conductor-some p q none h = ground arith
forget_conductor-some p q (some x) h = ground arith

-- An agent that is left was there before, and is not the one that closes: if that one has not
-- authenticated, it was not among the agents.
forget_agent-member :
    (p q : ℕ) (role : ConnRole) (agents : List ℕ)
    → (member p agents ≡ true → role ≡ agent_authenticated)
    → member q (forget_agent p role agents) ≡ true
    → (member q agents ≡ true) × (p ≢ q)
unfolding forget_agent
forget_agent-member p q agent_authenticated agents h m = ground (arith, member-remove q p agents)
forget_agent-member p q agent_pending agents h m = ground arith
forget_agent-member p q conductor_conn agents h m = ground arith

close-IsSound :
    (p : ℕ) (s : SwitchState)
    → IsSound s
    → role_of p s.conns ≢ none
    → (s' : SwitchState) × (on_close (some p) s ≡ some s') × IsSound s'
unfolding on_close IsSound
close-IsSound p s sound live =
    let (info, found, role) = live-find p s.conns live in
    (
      record s {
        agents = forget_agent p info.role s.agents;
        conductor = forget_conductor p s.conductor;
        conns = erase p s.conns;
      },
      ground arith,
      (
        (λ q m. ground (
          arith,
          role_of-erase p q s.conns,
          sound.0 q,
          sound.0 p,
          role,
          forget_agent-member p q info.role s.agents,
        )),
        (λ q e.
            ground
              (arith, role_of-erase p q s.conns, sound.1 q, forget_conductor-some p q s.conductor)),
      ),
    )

auth-IsSound :
    (p : ℕ) (fd : ℤ) (token : ℕ) (s : SwitchState)
    → IsSound s
    → role_of p s.conns ≢ none
    → (s' : SwitchState) × (calls : List QueueCall) × (on_auth_connect_to_switch p fd token s
        ≡ some (s', calls))
      × IsSound s'
unfolding on_auth_connect_to_switch IsSound
auth-IsSound p fd token s sound live =
    let (info, found, role) = live-find p s.conns live in
    elim (Option-cases (find token s.pending_tokens)) [
      | inl e ↦ (s, queue_close fd ∷ [], ground arith, sound)
      | inr (t, e) ↦
          let after : ConnInfo = record info { role = agent_authenticated; name = t.agent_name } in
          (
            record s {
              conns = insert p after s.conns;
              pending_tokens = erase token s.pending_tokens;
              agents = s.agents ++ p ∷ [];
            },
            queue_send_accepted fd ∷ [],
            ground arith,
            (
              (λ q m.
                  ground (
                    arith,
                    role_of-insert p q after s.conns,
                    member-append q p s.agents,
                    sound.0 q,
                  )),
              (λ q e. ground (arith, role_of-insert p q after s.conns, sound.1 q)),
            ),
          )
    ]

accept-IsSound :
    (put : Bool) (p : ℕ) (fd : ℤ) (now : ℕ) (s : SwitchState)
    → IsSound s
    → role_of p s.conns ≡ none
    → IsSound (accept_agent put p fd now s)
unfolding accept_agent IsSound
accept-IsSound put p fd now s sound fresh =
    let info : ConnInfo = record { role = agent_pending; name = []; fd = fd; last_hb_sent = now } in
    (
      (λ q m. ground (
        arith,
        sound.0 q,
        role_of-insert p q info s.conns,
        role_of-erase p q (insert p info s.conns),
      )),
      (λ q e. ground (
        arith,
        sound.1 q,
        role_of-insert p q info s.conns,
        role_of-erase p q (insert p info s.conns),
      )),
    )

Same-IsSound : (s s' : SwitchState) → Same s s' → IsSound s → IsSound s'
unfolding IsSound
Same-IsSound s s' same sound =
    ((λ q m. ground (arith, same.0 q, sound.0 q)), (λ q e. ground (arith, same.0 q, sound.1 q)))

agents-live :
    (s : SwitchState) → IsSound s → (p : ℕ) → member p s.agents ≡ true → role_of p s.conns ≢ none
unfolding IsSound
agents-live s sound p m e = absurd (ground (arith, sound.0 p))

beats-IsSound :
    (now : ℕ) (s : SwitchState)
    → IsSound s
    → (s' : SwitchState) × (calls : List QueueCall) × (send_heartbeats now s ≡ some (s', calls))
      × IsSound s'
unfolding send_heartbeats
beats-IsSound now s sound = elim (Option-cases s.conductor) [
  | inl e ↦
      let (s', sent, done, same) = try_hbs-Same now s.agents s (agents-live s sound) in
      (s', sent, ground arith, Same-IsSound s s' same sound)
  | inr (p, e) ↦
      let (s', sent, first, same) = try_hb-Same now p s (unfold IsSound in sound.1 p e) in
      let sound' = Same-IsSound s s' same sound in
      let (s'', more, others, same') = try_hbs-Same now s'.agents s' (agents-live s' sound') in
      (s'', sent ++ more, ground arith, Same-IsSound s' s'' same' sound')
]

-- From a sound state every admissible step is taken without a fault, and leaves a sound state.
pub step-IsSound :
    (e : Event) (s : SwitchState)
    → IsSound s
    → IsAdmissible e s
    → (s' : SwitchState) × (calls : List QueueCall) × (step e s ≡ some (s', calls)) × IsSound s'
unfolding step IsAdmissible on_close IsSound on_agent_connection_token expire_tokens
step-IsSound (accepts put p fd now) s sound fresh =
    (accept_agent put p fd now s, [], refl, accept-IsSound put p fd now s sound fresh)
step-IsSound (announces token agent now) s sound ok =
    (on_agent_connection_token token agent now s, [], refl, sound)
step-IsSound (authenticates p fd token) s sound live = auth-IsSound p fd token s sound live
step-IsSound (closes none) s sound ok = (s, [], refl, sound)
step-IsSound (closes (some p)) s sound live =
    let (s', e, sound') = close-IsSound p s sound live in (s', [], ground arith, sound')
step-IsSound (ticks now later) s sound ok = beats-IsSound later (expire_tokens now s) sound
