-- ===== src/Agent/Program/Tests.antt =====
-- An agent whose conductor sends two packets and leaves.
use v_net.Base.{◌+◌, List, refl, true, pos, some, [], ◌∷◌, ◌≡◌, arith, nat_eq, int_eq, ◌*◌, ◌^◌}
use v_net.Base.Map.{find}
use v_net.Host.{little_host}
use v_net.Protocol.Samples.{sample_coders}
use v_net.NetQueue.Queue.{Queue, PutChances}
use v_net.NetQueue.Element.{new_element, sck_header}
use v_net.NetQueue.Queue.Turn.{wait_and_process, passes}
use v_net.NetQueue.Queue.Turn.Batch.{events, AreArrivals}
use v_net.NetQueue.Queue.Turn.Tests.{batch, whole}
use v_net.Agent.{none, AgentState, enter_loop}
use v_net.Agent.Program.{Round, agent_loop}
use v_net.Agent.Program.Loop.{IsJoined, ComeInTurn}
use v_net.Agent.Program.Enter.{entered, agent_loop-entered}
use v_net.NetQueue.Write.{takes, blocks}

abbrev ready : PutChances
ready = record { allocates = true; adds = true; stores = true }

abbrev joined : AgentState
joined = (enter_loop 10 20 (pos 4) (pos 5) 0 1).0

abbrev table : Queue
table = entered ready ready 1 2 10 20 (pos 4) (pos 5)

-- After a while both would get a heartbeat, but only the switch is left.
abbrev rounds : List Round
rounds =
    record { fuel = 60; polled = some batch; now = 0; writes = [] }
    ∷ record { fuel = 60; polled = none; now = 31 * 10 ^ 9 + 1; writes = takes 3 ∷ blocks ∷ [] }
    ∷ []

batch-Arrive : AreArrivals 60 table batch
unfolding AreArrivals find v_net.NetQueue.Process.Frames.encode
    v_net.NetQueue.Process.Frames.encode_frame v_net.Protocol.Header.Wire.wire_header
    v_net.Host.store32 v_net.Host.store16 v_net.Base.Pointers.member
    v_net.NetQueue.Queue.Turn.Batch.pointers entered new_element v_net.Base.Map.insert
batch-Arrive = (
  (
    new_element (pos 4) 10 sck_header,
    refl,
    refl,
    (
      whole,
      [],
      refl,
      tt,
      ((omega arith, omega arith), ((omega arith, omega arith), tt)),
      refl,
      omega arith,
    ),
  ),
  refl,
  ((new_element (pos 5) 20 sck_header, refl, refl, (refl, refl)), refl, tt),
)

rounds-ComeInTurn : ComeInTurn little_host sample_coders rounds joined table
unfolding ComeInTurn AreArrivals
rounds-ComeInTurn = (batch-Arrive, λ s' q' e. (tt, λ s q e'. tt))

agent_loop-entered_example :
    (s' : AgentState) × (q' : Queue) × (agent_loop little_host sample_coders rounds joined table
      ≡ passes (s', q'))
    × IsJoined s' q'
agent_loop-entered_example =
    agent_loop-entered ready ready 1 2 10 20 (pos 4) (pos 5) little_host sample_coders 0 1 rounds
      (omega arith) (omega arith) (λ e. absurd (ground (arith, e))) rounds-ComeInTurn
