-- ===== src/Conductor/Tests.antt =====
-- A conductor with two switches and a new connection.
use v_net.Host.{little_host}
use v_net.Protocol.Mip.{PacketSwitchMip, PacketAgentMip, PacketAgentMrp}
use v_net.Protocol.Samples.{sample_coders}
use v_net.NetQueue.Write.{takes}
use v_net.Conductor.{
  ConnInfo, ConductorState, Call, Chances, Role, unknown, switch_conn, agent_conn, pick_switch,
  send_heartbeats,
}
use v_net.Conductor.Pick.{HasLiveSwitches, IsChoice, pick_switch-IsChoice}
use v_net.Conductor.Run.{switch_mips, agent_mips, agent_mrps, closes, turn, turns}
use v_net.Conductor.Sound.{IsSound, IsAdmissible}
use v_net.Conductor.Sound.Steps.{turn-IsSound}
use v_net.Conductor.Faults.{send_heartbeats-two_roles}
use v_net.Base.{
  ℕ, ℤ, pos, Text, Option, none, some, List, [], ◌∷◌, ◌≡◌, ◌≢◌, refl, arith, nat_eq, ◌<◌, ◌≤◌,
}
use v_net.Base.Map.{find}

abbrev info_of : Role → Text → ℕ → ConnInfo
info_of role network fd = record {
  role = role;
  name = b's' ∷ [];
  auth_key = [];
  network = network;
  sw_port = 6000;
  sw_ipv4 = 1;
  fd = pos fd;
  last_hb_sent = 0;
  connected_at_ms = 0;
}

abbrev home : Text
home = b'h' ∷ []

abbrev two_switches : ConductorState
two_switches = record {
  conns =
      (1, info_of switch_conn [] 4)
      ∷ (2, info_of switch_conn home 5)
      ∷ (3, info_of unknown [] 6)
      ∷ [];
  switches = 1 ∷ 2 ∷ [];
  agents = [];
  pending_tokens = [];
  rr_index = 0;
}

two_switches-HasLiveSwitches : HasLiveSwitches two_switches
unfolding HasLiveSwitches v_net.Base.Pointers.member find
two_switches-HasLiveSwitches p m gone = ground arith

two_switches-IsSound : IsSound two_switches
unfolding IsSound v_net.Base.Pointers.member v_net.Conductor.Run.role_at v_net.Base.Heap.field_at
    find
two_switches-IsSound = ((λ p m. ground arith), (λ p m. ground arith))

pick_switch-IsChoice_example :
    (p k : ℕ) × (pick_switch home two_switches
      ≡ some (some p, record two_switches { rr_index = k }))
    × IsChoice home two_switches p
pick_switch-IsChoice_example =
    pick_switch-IsChoice home two_switches two_switches-HasLiveSwitches (omega arith) (omega arith)

abbrev chances : Chances
chances = record {
  order = little_host;
  coders = sample_coders;
  now_ms = 10;
  later_ms = 11;
  token = 77;
  to_agent = takes 99 ∷ takes 99 ∷ [];
  to_switch = takes 99 ∷ takes 99 ∷ [];
}

abbrev agent_hello : PacketAgentMip
agent_hello = record { name = b'a' ∷ []; auth_key = []; network = home }

hello-IsAdmissible : IsAdmissible (agent_mips chances 3 (pos 6) agent_hello) two_switches
unfolding IsAdmissible v_net.Conductor.Sound.IsFreeFor v_net.Conductor.Run.role_at
    v_net.Base.Heap.field_at find
hello-IsAdmissible = ground arith

turn-IsSound_example :
    (s' : ConductorState) × (calls : List Call) × (turn
        (agent_mips chances 3 (pos 6) agent_hello)
        two_switches
      ≡ some (s', calls))
    × IsSound s'
turn-IsSound_example =
    turn-IsSound (agent_mips chances 3 (pos 6) agent_hello) two_switches two_switches-IsSound
      hello-IsAdmissible

abbrev as_switch : PacketSwitchMip
as_switch = record { name = b'x' ∷ []; auth_key = []; network = home; port = 6001 }

abbrev as_agent : PacketAgentMrp
as_agent = record { name = b'x' ∷ []; auth_key = [] }

third_live : find 3 two_switches.conns ≢ none
unfolding find
third_live gone = ground arith

send_heartbeats-two_roles_example :
    (s' : ConductorState) × (turns
        (switch_mips 3 (pos 6) as_switch 10 none
          ∷ agent_mrps 3 (pos 6) as_agent 10
          ∷ closes (some 3)
          ∷ [])
        two_switches
      ≡ some (s', []))
    × (send_heartbeats 20 s' ≡ none)
send_heartbeats-two_roles_example =
    send_heartbeats-two_roles 3 (pos 6) as_switch as_agent 10 20 none two_switches third_live
