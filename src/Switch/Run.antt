-- ===== src/Switch/Run.antt =====
-- The switch of src/switch/setup.cpp as a sequence of steps of its event loop.
use v_net.Base.{nat_eq, ℕ, Option, none, some, List, [], ◌∷◌, ℤ, Text, ◌>>=◌, Bool, ◌++◌}
use v_net.Base.Map.{find}
use v_net.Switch.{
  SwitchState, QueueCall, ConnRole, accept_agent, expire_tokens, on_agent_connection_token,
  on_auth_connect_to_switch, on_close, send_heartbeats, ConnInfo,
}

-- What the event loop does next, in the words of the code: `accept4`, a packet, `onClose`, the
-- timers at the end of a round, each with its own reading of the clock.
pub data Event : Type 0 where
  accepts : Bool → ℕ → ℤ → ℕ → Event
  announces : ℕ → Text → ℕ → Event
  authenticates : ℕ → ℤ → ℕ → Event
  closes : Option ℕ → Event
  ticks : ℕ → ℕ → Event

unfoldable pub step : Event → SwitchState → Option (SwitchState × List QueueCall)
step (accepts put p fd now) s = some (accept_agent put p fd now s, [])
step (announces token agent now) s = some (on_agent_connection_token token agent now s, [])
step (authenticates p fd token) s = on_auth_connect_to_switch p fd token s
step (closes p) s = do s' ← on_close p s; some (s', [])
step (ticks now later) s = send_heartbeats later (expire_tokens now s)

-- The events from the last to the first.
unfoldable pub run : List Event → SwitchState → Option (SwitchState × List QueueCall)
run [] s = some (s, [])
run (e ∷ es) s = do (s', before) ← run es s; (s'', calls) ← step e s'; some (s'', before ++ calls)

-- The role of a live connection.
unfoldable pub role_of : ℕ → List (ℕ × ConnInfo) → Option ConnRole
role_of p conns = elim (find p conns) [ none ↦ none | some info ↦ some info.role ]
