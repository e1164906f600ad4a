-- ===== src/Conductor/Run.antt =====
-- The conductor of src/conductor/setup.cpp as a sequence of steps of its event loop.
use v_net.Base.{nat_eq, ℕ, Option, none, some, List, [], ◌∷◌, ℤ, ◌>>=◌, Bool, ◌++◌, Text}
use v_net.Conductor.Dump.{write_dump}
use v_net.Base.Heap.{field_at}
use v_net.Protocol.Mip.{PacketSwitchMip, PacketAgentMip, PacketAgentMrp}
use v_net.Conductor.{
  ConductorState, Call, Chances, Role, ConnInfo, accept_client, on_switch_mip, on_agent_mip,
  on_agent_mrp, on_close, send_heartbeats,
}

-- What the event loop does next, in the words of the code: `accept4`, a packet, `onClose`, the
-- heartbeats and the state file at the end of a round.
pub data Event : Type 0 where
  accepts : Bool → ℕ → ℤ → ℕ → Event
  switch_mips : ℕ → ℤ → PacketSwitchMip → ℕ → Option ℕ → Event
  agent_mips : Chances → ℕ → ℤ → PacketAgentMip → Event
  agent_mrps : ℕ → ℤ → PacketAgentMrp → ℕ → Event
  closes : Option ℕ → Event
  ticks : ℕ → Event
  dumps : (ℕ → Text) → ℕ → Event

-- A handler that makes no call.
abbrev silent : Option ConductorState → Option (ConductorState × List Call)
silent none = none
silent (some s) = some (s, [])

unfoldable pub turn : Event → ConductorState → Option (ConductorState × List Call)
turn (accepts put p fd now) s = silent (some (accept_client put p fd now s))
turn (switch_mips p fd pkt now_ms peer) s = silent (on_switch_mip p fd pkt now_ms peer s)
turn (agent_mips c p fd pkt) s = on_agent_mip c p fd pkt s
turn (agent_mrps p fd pkt now_ms) s = silent (on_agent_mrp p fd pkt now_ms s)
turn (closes p) s = silent (on_close p s)
turn (ticks now) s = send_heartbeats now s
turn (dumps ipv4_to_string now_ms) s = silent (do file ← write_dump ipv4_to_string now_ms s; some s)

-- The events from the first to the last.
unfoldable pub turns : List Event → ConductorState → Option (ConductorState × List Call)
turns [] s = some (s, [])
turns (e ∷ es) s = do (s', calls) ← turn e s; (s'', more) ← turns es s'; some (s'', calls ++ more)

-- The role of a live connection.
unfoldable pub role_at : ℕ → List (ℕ × ConnInfo) → Option Role
unfolding field_at
role_at p conns = field_at (λ info. info.role) p conns
