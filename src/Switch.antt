-- ===== src/Switch.antt =====
-- src/switch/setup.cpp: what the switch keeps of its connections and tokens, and its handlers. The
-- `ConnInfo` objects stand on a heap, by address; a use of an address that is not live is a fault.
-- Times are nanoseconds of a clock that never steps back. The calls of the queue are values.
pub mod Run
pub mod Sound
pub mod Tokens
pub mod Admit
pub mod Join
pub mod Enter
pub mod Program
pub mod Tests
use v_net.Base.{
  ℕ, Option, none, some, List, [], ◌∷◌, ◌++◌, ℤ, nat_eq, is_neg, Text, ◌>>=◌, Bool, ltb, leb, not,
  ◌==◌, if◌then◌else◌, ◌-◌, ◌*◌, ◌^◌, zero, true, false,
}
use v_net.Base.Map.{find, insert, erase, erase_if}
use v_net.Base.Pointers.{remove}

pub data ConnRole : Type 0 where
  conductor_conn agent_pending agent_authenticated : ConnRole

pub record ConnInfo : Type 0 where
  pub role : ConnRole
  pub name : Text
  pub fd : ℤ
  pub last_hb_sent : ℕ

pub record PendingToken : Type 0 where
  pub agent_name : Text
  pub created : ℕ

pub record SwitchState : Type 0 where
  pub conns : List (ℕ × ConnInfo)
  pub pending_tokens : List (ℕ × PendingToken)
  pub agents : List ℕ
  pub conductor : Option ℕ

-- The calls of the `NetQueue` that the handlers make.
pub data QueueCall : Type 0 where
  queue_close queue_send_accepted queue_send_heartbeat : ℤ → QueueCall

abbrev pub token_expiry : ℕ
token_expiry = 60 * 10 ^ 9

abbrev pub heartbeat_interval : ℕ
heartbeat_interval = 30 * 10 ^ 9

-- `main`, up to the event loop: the connection to the conductor.
pub start : ℕ → Text → ℤ → ℕ → SwitchState
start p name fd now = record {
  conns = (p, record { role = conductor_conn; name = name; fd = fd; last_hb_sent = now }) ∷ [];
  pending_tokens = [];
  agents = [];
  conductor = some p;
}

-- A connection that `accept4` gave, with a new `ConnInfo` at `p`; `put` tells whether the queue
-- took it.
pub accept_agent : Bool → ℕ → ℤ → ℕ → SwitchState → SwitchState
accept_agent put p fd now s =
    let info : ConnInfo = record { role = agent_pending; name = []; fd = fd; last_hb_sent = now } in
    if put
    then record s { conns = insert p info s.conns }
    else record s { conns = erase p (insert p info s.conns) }

pub expire_tokens : ℕ → SwitchState → SwitchState
expire_tokens now s = record s {
  pending_tokens = erase_if (λ t. ltb token_expiry (now - t.created)) s.pending_tokens;
}

pub on_agent_connection_token : ℕ → Text → ℕ → SwitchState → SwitchState
on_agent_connection_token token agent now s = record s {
  pending_tokens = insert token (record { agent_name = agent; created = now }) s.pending_tokens;
}

pub on_auth_connect_to_switch : ℕ → ℤ → ℕ → SwitchState → Option (SwitchState × List QueueCall)
on_auth_connect_to_switch p fd token s = elim (find token s.pending_tokens) [
  | none ↦ some (s, queue_close fd ∷ [])
  | some t ↦ do
    info ← find p s.conns
    some (
      record s {
        conns = insert p (record info { role = agent_authenticated; name = t.agent_name }) s.conns;
        pending_tokens = erase token s.pending_tokens;
        agents = s.agents ++ p ∷ [];
      },
      queue_send_accepted fd ∷ [],
    )
]

-- The agents that `onClose` leaves, and the conductor.
forget_agent : ℕ → ConnRole → List ℕ → List ℕ
forget_agent p agent_authenticated agents = remove p agents
forget_agent p agent_pending agents = agents
forget_agent p conductor_conn agents = agents

forget_conductor : ℕ → Option ℕ → Option ℕ
forget_conductor p none = none
forget_conductor p (some q) = if q == p then none else some q

-- The pointer is null for `none`.
pub on_close : Option ℕ → SwitchState → Option SwitchState
unfolding forget_agent forget_conductor
on_close none s = some s
on_close (some p) s = do
  info ← find p s.conns
  some (record s {
    agents = forget_agent p info.role s.agents;
    conductor = forget_conductor p s.conductor;
    conns = erase p s.conns;
  })

-- The lambda of `send_heartbeats`.
try_hb : ℕ → ℕ → SwitchState → Option (SwitchState × List QueueCall)
try_hb now p s = do
  info ← find p s.conns
  some (
      if not (is_neg info.fd)
      then (if leb heartbeat_interval (now - info.last_hb_sent)
          then (
            record s { conns = insert p (record info { last_hb_sent = now }) s.conns },
            queue_send_heartbeat info.fd ∷ [],
          )
          else (s, []))
      else (s, []))

try_hbs : ℕ → List ℕ → SwitchState → Option (SwitchState × List QueueCall)
try_hbs now [] s = some (s, [])
try_hbs now (p ∷ ps) s = do
  (s', sent) ← try_hb now p s
  (s'', more) ← try_hbs now ps s'
  some (s'', sent ++ more)

pub send_heartbeats : ℕ → SwitchState → Option (SwitchState × List QueueCall)
unfolding try_hbs try_hb
send_heartbeats now s = elim s.conductor [
  | none ↦ try_hbs now s.agents s
  | some p ↦ do
    (s', sent) ← try_hb now p s
    (s'', more) ← try_hbs now s'.agents s'
    some (s'', sent ++ more)
]
