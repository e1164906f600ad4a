-- ===== src/Agent/Tests.antt =====
-- An agent that reaches the conductor at the second attempt and is admitted by its switch.
use v_net.Host.{little_host}
use v_net.Protocol.Samples.{sample_coders}
use v_net.NetQueue.Kernel.{chunk}
use v_net.NetQueue.Write.{takes}
use v_net.Sockets.{Connecting}
use v_net.Agent.{AgentState, enter_loop, Surroundings, join, conductor_role, switch_role}
use v_net.Sockets.Held.{Holds}
use v_net.Agent.Life.{Event, closes, ticks, reacts, IsSound, AreAdmissible, reacts-join}
use v_net.Base.{
  List, some, arith, nat_eq, ◌≢◌, none, refl, ℕ, zero, suc, pos, true, false, [], ◌∷◌, ◌≡◌,
}
use v_net.Base.Map.{find, insert}

abbrev attempts : ℕ → ℕ → Connecting
attempts fd zero = record { resolves = false; socket = pos 0; connects = false }
attempts fd (suc zero) = record { resolves = true; socket = pos fd; connects = false }
attempts fd (suc (suc n)) = record { resolves = true; socket = pos fd; connects = true }

abbrev surroundings : Surroundings
surroundings = record {
  order = little_host;
  coders = sample_coders;
  agent_name = b'a' ∷ [];
  auth_key = [];
  conductor_cfg = record { ip = b'c' ∷ []; port = 5000 };
  inet_ntop = λ ipv4. ipv4 ∷ [];
  connecting = λ mc n. attempts mc.port n;
  to_conductor = takes 99 ∷ takes 99 ∷ [];
  from_conductor = chunk (0 ∷ 0 ∷ 0 ∷ 4 ∷ 0 ∷ 3 ∷ 9 ∷ 77 ∷ 6000 ∷ 115 ∷ []) ∷ [];
  to_switch = takes 99 ∷ takes 99 ∷ [];
  from_switch = chunk (0 ∷ 0 ∷ 0 ∷ 0 ∷ 0 ∷ 6 ∷ []) ∷ [];
}

joins : (join surroundings 1).1 ≡ v_net.Sockets.Connect.enters (pos 5000) (pos 6000)
unfolding join v_net.Agent.connect_with_retry v_net.Sockets.connect_to v_net.Sockets.Connect.if_sent
    v_net.Sockets.send_protobuf_packet v_net.Protocol.Header.header_bytes v_net.Host.store32
    v_net.Host.store16 v_net.Sockets.Connect.if_read v_net.Sockets.read_protobuf_packet
    v_net.Protocol.Header.header_at v_net.Protocol.Header.get_packet_type v_net.Host.load16
    v_net.Protocol.Header.get_payload_size v_net.Host.load32
joins = refl

abbrev events : List Event
events = ticks 7 ∷ closes (some 1) ∷ ticks 5 ∷ []

abbrev joined : AgentState
joined = record {
  conns =
      (1, record { role = conductor_role; fd = pos 5000; last_hb_sent = 0 })
      ∷ (2, record { role = switch_role; fd = pos 6000; last_hb_sent = 0 })
      ∷ [];
  conductor = some 1;
  sw = some 2;
}

-- The first round is too early for a heartbeat.
after_tick : reacts (ticks 5 ∷ []) (enter_loop 1 2 (pos 5000) (pos 6000) 0 0).0 ≡ some joined
unfolding reacts v_net.Agent.Life.react enter_loop v_net.Agent.send_heartbeats v_net.Agent.try_hb
    insert find
after_tick = refl

live_after : find 1 joined.conns ≢ none
unfolding find
live_after e = ground (arith, e)

events-AreAdmissible : AreAdmissible events (enter_loop 1 2 (pos 5000) (pos 6000) 0 0).0
unfolding AreAdmissible
events-AreAdmissible = ((λ s' e gone. live_after (ground (arith, e, after_tick, gone))), tt)

reacts-join_example :
    Holds [] (join surroundings 1)
    × ((s' : AgentState) × (reacts events (enter_loop 1 2 (pos 5000) (pos 6000) 0 0).0 ≡ some s')
        × IsSound s')
reacts-join_example =
    reacts-join surroundings 1 1 2 0 0 (pos 5000) (pos 6000) events events-AreAdmissible
