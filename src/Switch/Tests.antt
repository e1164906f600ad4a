-- ===== src/Switch/Tests.antt =====
-- A switch that has an agent's token, and the agent.
use v_net.Base.{
  ℕ, ℤ, pos, Text, Option, none, some, List, [], ◌∷◌, ◌≡◌, refl, arith, true, ◌≤◌, nat_eq,
}
use v_net.Switch.{
  SwitchState, QueueCall, queue_send_accepted, on_auth_connect_to_switch, start,
  agent_authenticated, agent_pending, conductor_conn,
}
use v_net.Switch.Run.{Event, accepts, announces, authenticates, step, role_of}
use v_net.Switch.Sound.{IsSound, IsAdmissible, step-IsSound}
use v_net.Switch.Tokens.{grants, announcements, grants-announcements}

abbrev waiting : SwitchState
waiting = record {
  conns =
      (1, record { role = conductor_conn; name = []; fd = pos 3; last_hb_sent = 0 })
      ∷ (2, record { role = agent_pending; name = []; fd = pos 4; last_hb_sent = 0 })
      ∷ [];
  pending_tokens = (77, record { agent_name = b'a' ∷ []; created = 0 }) ∷ [];
  agents = [];
  conductor = some 1;
}

abbrev served : SwitchState
served = record {
  conns =
      (1, record { role = conductor_conn; name = []; fd = pos 3; last_hb_sent = 0 })
      ∷ (2, record { role = agent_authenticated; name = b'a' ∷ []; fd = pos 4; last_hb_sent = 0 })
      ∷ [];
  pending_tokens = [];
  agents = 2 ∷ [];
  conductor = some 1;
}

waiting-IsSound : IsSound waiting
unfolding IsSound role_of v_net.Base.Map.find v_net.Base.Pointers.member
waiting-IsSound = (λ p m. absurd (ground arith), λ p e. ground arith)

waiting-IsAdmissible : IsAdmissible (authenticates 2 (pos 4) 77) waiting
unfolding IsAdmissible role_of v_net.Base.Map.find
waiting-IsAdmissible e = ground arith

served_next :
    on_auth_connect_to_switch 2 (pos 4) 77 waiting ≡ some (served, queue_send_accepted (pos 4) ∷ [])
unfolding on_auth_connect_to_switch v_net.Base.Map.find v_net.Base.Map.insert v_net.Base.Map.erase
served_next = refl

step-IsSound_example :
    (s' : SwitchState) × (calls : List QueueCall) × (step (authenticates 2 (pos 4) 77) waiting
      ≡ some (s', calls))
    × IsSound s'
step-IsSound_example =
    step-IsSound (authenticates 2 (pos 4) 77) waiting waiting-IsSound waiting-IsAdmissible

abbrev some_events : List Event
some_events =
    authenticates 2 (pos 4) 77 ∷ announces 77 (b'a' ∷ []) 0 ∷ accepts true 2 (pos 4) 0 ∷ []

grants-announcements_example :
    grants 77 some_events (start 1 [] (pos 3) 0) ≤ announcements 77 some_events
grants-announcements_example = grants-announcements 77 1 [] (pos 3) 0 some_events
