-- ===== src/Conductor/Dump.antt =====
-- `write_dump` of src/conductor/setup.cpp: what it puts into the state file. Opening, writing and
-- renaming the file are left out.
use v_net.Base.{
  ℕ, Option, none, some, List, [], ◌∷◌, ◌≡◌, ◌≢◌, ◌>>=◌, Text, nat_eq, refl, arith, true, inl, inr,
  Option-cases,
}
use v_net.Base.Map.{find}
use v_net.Base.Pointers.{member}
use v_net.Conductor.{ConnInfo, ConductorState, PendingTokenInfo}

pub record SwitchEntry : Type 0 where
  pub name : Text
  pub network : Text
  pub ipv4 : Text
  pub port : ℕ
  pub connected_at_ms : ℕ

pub record AgentRecord : Type 0 where
  pub name : Text
  pub connected_at_ms : ℕ

pub record StateFile : Type 0 where
  pub dumped_at_ms : ℕ
  pub switches : List SwitchEntry
  pub agents : List AgentRecord
  pub pending_tokens : List PendingTokenInfo

-- `ipv4_to_string` is given.
dump_switches : (ℕ → Text) → List ℕ → List (ℕ × ConnInfo) → Option (List SwitchEntry)
dump_switches ipv4_to_string [] conns = some []
dump_switches ipv4_to_string (p ∷ ps) conns = do
  sw ← find p conns
  rest ← dump_switches ipv4_to_string ps conns
  some (
      record {
        name = sw.name;
        network = sw.network;
        ipv4 = ipv4_to_string sw.sw_ipv4;
        port = sw.sw_port;
        connected_at_ms = sw.connected_at_ms;
      }
      ∷ rest)

dump_agents : List ℕ → List (ℕ × ConnInfo) → Option (List AgentRecord)
dump_agents [] conns = some []
dump_agents (p ∷ ps) conns = do
  ag ← find p conns
  rest ← dump_agents ps conns
  some (record { name = ag.name; connected_at_ms = ag.connected_at_ms } ∷ rest)

pub write_dump : (ℕ → Text) → ℕ → ConductorState → Option StateFile
unfolding dump_switches dump_agents
write_dump ipv4_to_string now_ms s = do
  switches ← dump_switches ipv4_to_string s.switches s.conns
  agents ← dump_agents s.agents s.conns
  some (record {
    dumped_at_ms = now_ms;
    switches = switches;
    agents = agents;
    pending_tokens = s.pending_tokens;
  })

-- Pointers that are live.
abbrev pub AreLive : List ℕ → List (ℕ × ConnInfo) → Type 0
AreLive ps conns = (p : ℕ) → member p ps ≡ true → find p conns ≢ none

dump_switches-AreLive :
    (ipv4_to_string : ℕ → Text) (ps : List ℕ) (conns : List (ℕ × ConnInfo))
    → AreLive ps conns
    → (entries : List SwitchEntry) × (dump_switches ipv4_to_string ps conns ≡ some entries)
unfolding dump_switches member
dump_switches-AreLive f [] conns live = ([], refl)
dump_switches-AreLive f (p ∷ ps) conns live = elim (Option-cases (find p conns)) [
  | inl gone ↦ absurd (live p (ground arith) gone)
  | inr (sw, found) ↦
      let (entries, rest) = dump_switches-AreLive f ps conns (λ q m. live q (ground (arith, m))) in
      (
        record {
          name = sw.name;
          network = sw.network;
          ipv4 = f sw.sw_ipv4;
          port = sw.sw_port;
          connected_at_ms = sw.connected_at_ms;
        }
            ∷ entries,
        rw (found, rest) refl,
      )
]

dump_agents-AreLive :
    (ps : List ℕ) (conns : List (ℕ × ConnInfo))
    → AreLive ps conns
    → (entries : List AgentRecord) × (dump_agents ps conns ≡ some entries)
unfolding dump_agents member
dump_agents-AreLive [] conns live = ([], refl)
dump_agents-AreLive (p ∷ ps) conns live = elim (Option-cases (find p conns)) [
  | inl gone ↦ absurd (live p (ground arith) gone)
  | inr (ag, found) ↦
      let (entries, rest) = dump_agents-AreLive ps conns (λ q m. live q (ground (arith, m))) in
      (
        record { name = ag.name; connected_at_ms = ag.connected_at_ms } ∷ entries,
        rw (found, rest) refl,
      )
]

-- The state file is written without a fault when every pointer of both lists is live.
pub write_dump-AreLive :
    (ipv4_to_string : ℕ → Text) (now_ms : ℕ) (s : ConductorState)
    → AreLive s.switches s.conns
    → AreLive s.agents s.conns
    → (file : StateFile) × (write_dump ipv4_to_string now_ms s ≡ some file)
unfolding write_dump
write_dump-AreLive f now_ms s switches agents =
    let (entries, first) = dump_switches-AreLive f s.switches s.conns switches in
    let (records, second) = dump_agents-AreLive s.agents s.conns agents in
    (
      record {
        dumped_at_ms = now_ms;
        switches = entries;
        agents = records;
        pending_tokens = s.pending_tokens;
      },
      rw (first, second) refl,
    )
