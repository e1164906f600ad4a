-- ===== src/Agent/Program/Closing.antt =====
-- What the agent of src/agent/setup.cpp does about the connections that its event queue closes.
use v_net.Base.{
  ℕ, true, false, Option, none, some, List, [], ◌∷◌, ◌≡◌, ◌≢◌, refl, sym, ap, ◌∙◌, arith, nat_eq,
  int_eq, inl, inr, Option-cases, ℕ_discrete, min, length, ◌-◌, ◌+◌,
}
use v_net.Base.Map.{find, find-erase}
use v_net.Base.Pointers.{member}
use v_net.Host.{ByteOrder}
use v_net.Protocol.Mip.{Coders, mip_messages}
use v_net.Protocol.Dispatch.{on_socket_ready}
use v_net.NetQueue.Element.{NetworkElement, SocketData, TunData, CloseReason}
use v_net.NetQueue.Process.Frames.{Frame, deliver}
use v_net.NetQueue.Queue.{Queue}
use v_net.NetQueue.Queue.Sound
use v_net.NetQueue.Queue.Turn.{EpollEvent, wait_and_process, passes}
use v_net.NetQueue.Queue.Turn.Receive.{KeepsElements, Burst, stopped}
use v_net.NetQueue.Queue.Turn.Settle.{KeepsQueue, flushed_element}
use v_net.NetQueue.Write.{Outgoing, takes, interrupted, blocks, breaks, flush_write_buffer}
use v_net.NetQueue.Queue.Turn.Batch.{
  other_pointer, told_why, told_at, Batch, events, pointers, AreArrivals, left, left-absent,
  reason_at, flushed_at, told_all, wait_and_process_delivers,
}
use v_net.Agent.{AgentState, on_close}
use v_net.Agent.Life.{IsSound, close-IsSound}
use v_net.Agent.Program.{World, closed_in, agent_handler, IsLinked}

abbrev unchanged : World → SocketData → World
unchanged w d = w

abbrev unchanged_by_tun : World → TunData → World
unchanged_by_tun w d = w

agent_handler-KeepsElements :
    (c : Coders) → KeepsElements (agent_handler c) unchanged unchanged_by_tun
unfolding KeepsElements agent_handler
agent_handler-KeepsElements c = (
  (λ w q d. elim (Option-cases (on_socket_ready (mip_messages c) d)) [
    | inl e ↦ rw (e, agent_handler) refl
    | inr (call, e) ↦ rw (e, agent_handler) refl
  ]),
  λ w q d. refl,
)

agent_handler-KeepsQueue : (c : Coders) → KeepsQueue (agent_handler c) closed_in
unfolding KeepsQueue agent_handler
agent_handler-KeepsQueue c w q d = refl

deliver-unchanged :
    (el : NetworkElement) (w : World) (fs : List Frame) → deliver unchanged el w fs ≡ w
unfolding deliver
deliver-unchanged el w [] = refl
deliver-unchanged el w (f ∷ fs) = deliver-unchanged el w fs

flush-ptr :
    (el : NetworkElement) (s : List Outgoing) → (flush_write_buffer el s).element.ptr ≡ el.ptr
unfolding flush_write_buffer
flush-ptr el [] = ground arith
flush-ptr el (blocks ∷ s) = ground arith
flush-ptr el (interrupted ∷ s) = ground (arith, flush-ptr el s)
flush-ptr el (breaks ∷ s) = ground arith
flush-ptr el (takes k ∷ s) =
    let r = min k (length el.write_buffer - el.write_buffer_offset) in
    ground (arith, flush-ptr (record el { write_buffer_offset = el.write_buffer_offset + r }) s)

flushed_element-ptr : (ev : EpollEvent) (el : NetworkElement) → (flushed_element ev el).ptr ≡ el.ptr
flushed_element-ptr ev el = ground (arith, flush-ptr el ev.outgoing)

flushed_at-ptr :
    (ev : EpollEvent) (fs : Burst) (el : NetworkElement) → (flushed_at ev fs el).ptr ≡ el.ptr
flushed_at-ptr ev fs el = flushed_element-ptr ev (stopped fs.stop el)

-- What is left in the end was left after the first event too.
stays_through :
    (ev : EpollEvent) (fs : Burst) (rest : Batch) (el : NetworkElement) (r : ℕ)
    (x : Option NetworkElement)
    → member ev.data_ptr (pointers rest) ≡ false
    → (ev.data_ptr ≡ r → x ≡ some el)
    → left ((ev, fs) ∷ rest) r x ≢ none
    → (left rest r x ≢ none) × (ev.data_ptr ≡ r → reason_at ev fs el ≡ none)
unfolding left
stays_through ev fs rest el r x once there stays = elim (ℕ_discrete ev.data_ptr r) [
  | yes same ↦
      let absent = ap (λ y. member y (pointers rest)) (sym same) ∙ once in
      let later = left-absent rest r x absent in
      elim (Option-cases (reason_at ev fs el)) [
        | inl kept ↦ ((λ gone. absurd (ground (arith, gone, later, there same))), λ e. kept)
        | inr (why, closed) ↦ absurd (stays (ground (arith, same, there same, closed)))
      ]
  | no other ↦ ((λ gone. absurd (stays (ground (arith, other, gone)))), λ same. absurd (other same))
]

module _ (q : Queue)
    (apart : (r r' : ℕ) (el el' : NetworkElement)
      → find r q.elements ≡ some el
      → find r' q.elements ≡ some el'
      → el.ptr ≡ el'.ptr
      → r ≡ r') where
  -- The object of the connection at an address.
  abbrev Live : ℕ → AgentState → Type 0
  Live r s = (el : NetworkElement) → find r q.elements ≡ some el → find el.ptr s.conns ≢ none

  close-Live :
      (p : ℕ) (el : NetworkElement) (s s' : AgentState)
      → find p q.elements ≡ some el
      → on_close (some el.ptr) s ≡ some s'
      → (r : ℕ) → p ≢ r
      → Live r s
      → Live r s'
  unfolding on_close
  close-Live p el s s' found done r other live x there gone =
      let differ : el.ptr ≢ x.ptr = λ same. other (apart p r el x found there same) in
      let known = live x there in
      elim (Option-cases (find el.ptr s.conns)) [
        | inl none_left ↦ absurd (ground (arith, done, none_left))
        | inr (info, e) ↦
            absurd (ground (arith, done, e, gone, known, differ, find-erase el.ptr x.ptr s.conns))
      ]

  -- One event: the connection is closed, or not.
  event-IsSound :
      (ev : EpollEvent) (fs : Burst) (el : NetworkElement) (reason : Option CloseReason)
      (s : AgentState)
      → find ev.data_ptr q.elements ≡ some el
      → IsSound s
      → Live ev.data_ptr s
      → (s' : AgentState) × (told_why unchanged closed_in reason
            (flushed_at ev fs el)
            (deliver unchanged el (some s) fs.frames)
          ≡ some s')
        × IsSound s'
        × ((r : ℕ) → (ev.data_ptr ≡ r → reason ≡ none) → Live r s → Live r s')
  event-IsSound ev fs el none s found sound live =
      (s, deliver-unchanged el (some s) fs.frames, sound, λ r stays l. l)
  event-IsSound ev fs el (some why) s found sound live =
      let (s', done, sound') = close-IsSound el.ptr s sound (live el found) in
      (
        s',
        rw (deliver-unchanged el (some s) fs.frames, flushed_at-ptr ev fs el) done,
        sound',
        λ r stays l.
            close-Live ev.data_ptr el s s' found done r
              (λ same. absurd (ground (arith, stays same))) l,
      )

  -- What a batch leads to.
  told-IsSound :
      (fuel : ℕ) (b : Batch) (s : AgentState)
      → IsSound s
      → AreArrivals fuel q b
      → ((r : ℕ) → member r (pointers b) ≡ true → Live r s)
      → (s' : AgentState) × (told_all unchanged closed_in q b (some s) ≡ some s')
        × IsSound s'
        × ((r : ℕ) → left b r (find r q.elements) ≢ none → Live r s → Live r s')
  unfolding told_all AreArrivals pointers left member
  told-IsSound fuel [] s sound arrivals live = (s, refl, sound, λ r stays l. l)
  told-IsSound fuel ((ev, fs) ∷ rest) s sound ((el, found, still, carries), once, others) live =
      let here : Live ev.data_ptr s = live ev.data_ptr (ground arith) in
      let (s1, one, sound1, keep1) =
        event-IsSound ev fs el (reason_at ev fs el) s found sound here in
      let (s2, more, sound2, keep2) = told-IsSound fuel rest s1 sound1 others λ r m.
        keep1 r (λ same. absurd (other_pointer ev.data_ptr r (pointers rest) once m same))
          (live r (ground (arith, m))) in
      (
        s2,
        ap (λ x. told_all unchanged closed_in q rest (told_at unchanged closed_in ev x fs (some s)))
              found
            ∙ ap (λ w. told_all unchanged closed_in q rest w) one
            ∙ more,
        sound2,
        λ r stays l.
            let (later, first) =
              stays_through ev fs rest el r (find r q.elements) once
                (λ same. ap (λ x. find x q.elements) (sym same) ∙ found) stays in
            keep2 r later (keep1 r first l),
      )

left-ptr :
    (b : Batch) (r : ℕ) (x : Option NetworkElement) (el' : NetworkElement)
    → left b r x ≡ some el'
    → (el : NetworkElement) × (x ≡ some el) × (el'.ptr ≡ el.ptr)
unfolding left
left-ptr [] r x el' e = (el', e, refl)
left-ptr ((ev, fs) ∷ rest) r none el' e = elim (ℕ_discrete ev.data_ptr r) [
  | yes same ↦ absurd (ground (arith, e, same))
  | no other ↦ left-ptr rest r none el' (ground (arith, e, other))
]
left-ptr ((ev, fs) ∷ rest) r (some el) el' e = elim (ℕ_discrete ev.data_ptr r) [
  | yes same ↦ elim (Option-cases (reason_at ev fs el)) [
    | inl stays ↦ (el, refl, ground (arith, e, same, stays, flushed_at-ptr ev fs el))
    | inr (why, closed) ↦ absurd (ground (arith, e, same, closed))
  ]
  | no other ↦ left-ptr rest r (some el) el' (ground (arith, e, other))
]

-- `wait_and_process` with the agent's handlers.
pub waited-IsLinked :
    (o : ByteOrder) (c : Coders) (fuel : ℕ) (q : Queue) (b : Batch) (s : AgentState)
    → Sound.IsSound q
    → IsSound s
    → IsLinked q s
    → AreArrivals fuel q b
    → (q' : Queue) × (s' : AgentState) × (wait_and_process o
          (agent_handler c)
          fuel
          (some (events b))
          (some s)
          q
        ≡ passes (some s', q'))
      × Sound.IsSound q'
      × IsSound s'
      × IsLinked q' s'
unfolding IsLinked
waited-IsLinked o c fuel q b s table sound (live, apart) arrivals =
    let (q', done, table', there) =
      wait_and_process_delivers o (agent_handler c) unchanged unchanged_by_tun closed_in
        (agent_handler-KeepsElements c) (agent_handler-KeepsQueue c) fuel q b (some s) table
        arrivals in
    let (s', told, sound', keep) = told-IsSound q apart fuel b s sound arrivals (λ r m. live r) in
    (
      q',
      s',
      done ∙ ap (λ w. passes (w, q')) told,
      table',
      sound',
      (
        (λ r el' e gone.
            let found = sym (there r) ∙ e in
            let (el, before, same) = left-ptr b r (find r q.elements) el' found in
            absurd (
              keep r (λ none_left. absurd (ground (arith, found, none_left))) (live r) el before
                (ap (λ p. find p s'.conns) (sym same) ∙ gone))),
        (λ r r' x y ex ey same.
            let (x0, bx, sx) = left-ptr b r (find r q.elements) x (sym (there r) ∙ ex) in
            let (y0, by, sy) = left-ptr b r' (find r' q.elements) y (sym (there r') ∙ ey) in
            apart r r' x0 y0 bx by (sym sx ∙ same ∙ sy)),
      ),
    )
