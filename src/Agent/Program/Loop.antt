-- ===== src/Agent/Program/Loop.antt =====
-- The event loop of src/agent/setup.cpp over any number of its turns.
use v_net.Base.{ℕ, none, List, [], ◌∷◌, ◌≡◌, ◌≢◌, refl, sym, ap, ◌∙◌, nat_eq, int_eq}
use v_net.Base.Map.{find}
use v_net.Host.{ByteOrder}
use v_net.Protocol.Mip.{Coders}
use v_net.NetQueue.Queue.{Queue}
use v_net.NetQueue.Queue.Sound
use v_net.NetQueue.Queue.Turn.{wait_and_process, passes}
use v_net.NetQueue.Queue.Turn.Batch.{Batch, AreArrivals}
use v_net.Agent.{some, Option, AgentState}
use v_net.Agent.Life.{IsSound, beats-IsSound}
use v_net.Agent.Program.{stored, agent_handler, IsLinked, Round, agent_round, agent_loop}
use v_net.Agent.Program.Closing.{waited-IsLinked}
use v_net.Agent.Program.Beats.{ComesFrom, beat_all-IsSound, send_heartbeats-keeps}

-- What holds between two turns.
abbrev pub IsJoined : AgentState → Queue → Type 0
IsJoined s q = Sound.IsSound q × IsSound s × IsLinked q s

-- The events, if `epoll_wait` gives any, are arrivals.
abbrev pub ArriveAt : ℕ → Queue → Option Batch → Type 0
ArriveAt fuel q none = Unit
ArriveAt fuel q (some b) = AreArrivals fuel q b

polled-IsLinked :
    (o : ByteOrder) (c : Coders) (fuel : ℕ) (q : Queue) (polled : Option Batch) (s : AgentState)
    → Sound.IsSound q
    → IsSound s
    → IsLinked q s
    → ArriveAt fuel q polled
    → (q' : Queue) × (s' : AgentState) × (wait_and_process o
          (agent_handler c)
          fuel
          (stored polled)
          (some s)
          q
        ≡ passes (some s', q'))
      × Sound.IsSound q'
      × IsSound s'
      × IsLinked q' s'
unfolding wait_and_process
polled-IsLinked o c fuel q none s table sound linked arrivals = (q, s, refl, table, sound, linked)
polled-IsLinked o c fuel q (some b) s table sound linked arrivals =
    waited-IsLinked o c fuel q b s table sound linked arrivals

-- Each turn's events are arrivals at the table that the turns before it left.
unfoldable pub ComeInTurn : ByteOrder → Coders → List Round → AgentState → Queue → Type 0
ComeInTurn o c [] s q = Unit
ComeInTurn o c (r ∷ rs) s q =
    ArriveAt r.fuel q r.polled
    × ((s' : AgentState) (q' : Queue)
        → agent_round o c r s q ≡ passes (s', q')
        → ComeInTurn o c rs s' q')

beats-IsLinked :
    (q q' : Queue) (s s' : AgentState)
    → IsLinked q s
    → ComesFrom q q'
    → ((p : ℕ) → find p s.conns ≢ none → find p s'.conns ≢ none)
    → IsLinked q' s'
unfolding IsLinked
beats-IsLinked q q' s s' (live, apart) from keeps = (
  (λ r el' e gone.
      let (el, before, same) = from r el' e in
      absurd (keeps el.ptr (live r el before) (ap (λ p. find p s'.conns) (sym same) ∙ gone))),
  λ r r' x y ex ey same.
      let (x0, bx, sx) = from r x ex in
      let (y0, by, sy) = from r' y ey in apart r r' x0 y0 bx by (sym sx ∙ same ∙ sy),
)

agent_round-IsJoined :
    (o : ByteOrder) (c : Coders) (r : Round) (s : AgentState) (q : Queue)
    → IsJoined s q
    → ArriveAt r.fuel q r.polled
    → (s' : AgentState) × (q' : Queue) × (agent_round o c r s q ≡ passes (s', q')) × IsJoined s' q'
unfolding agent_round
agent_round-IsJoined o c r s q (table, sound, linked) arrivals =
    let (q1, s1, waited, table1, sound1, linked1) =
      polled-IsLinked o c r.fuel q r.polled s table sound linked arrivals in
    let (s2, fds, beaten, sound2) = beats-IsSound r.now s1 sound1 in
    let (q2, sent, table2, from) = beat_all-IsSound o fds r.writes q1 table1 in
    (
      s2,
      q2,
      rw (waited, beaten, sent) refl,
      (
        table2,
        sound2,
        beats-IsLinked q1 q2 s1 s2 linked1 from λ p. send_heartbeats-keeps r.now s1 s2 fds p beaten,
      ),
    )

-- What held before the first of the turns holds after the last, without a fault on the way.
pub agent_loop-IsJoined :
    (o : ByteOrder) (c : Coders) (rs : List Round) (s : AgentState) (q : Queue)
    → IsJoined s q
    → ComeInTurn o c rs s q
    → (s' : AgentState) × (q' : Queue) × (agent_loop o c rs s q ≡ passes (s', q')) × IsJoined s' q'
unfolding agent_loop ComeInTurn
agent_loop-IsJoined o c [] s q joined turns = (s, q, refl, joined)
agent_loop-IsJoined o c (r ∷ rs) s q joined (arrivals, next) =
    let (s1, q1, one, joined1) = agent_round-IsJoined o c r s q joined arrivals in
    let (s2, q2, more, joined2) = agent_loop-IsJoined o c rs s1 q1 joined1 (next s1 q1 one) in
    (s2, q2, rw one more, joined2)
