-- ===== src/Agent/Program/Beats.antt =====
-- The heartbeats of src/agent/setup.cpp on its event queue.
use v_net.Base.{
  ℕ_discrete, ℕ, ℤ, Option, none, some, List, [], ◌∷◌, ◌≡◌, ◌≢◌, refl, sym, ap, ◌∙◌, arith, nat_eq,
  int_eq, inl, inr, Option-cases,
}
use v_net.Base.Map.{find, insert, find-insert}
use v_net.Host.{ByteOrder}
use v_net.Protocol.Header.{new_header, header_bytes, heartbeat}
use v_net.NetQueue.Element.{NetworkElement}
use v_net.NetQueue.Write
use v_net.NetQueue.Write.{Outgoing}
use v_net.NetQueue.Write.Descriptor.{send-fd, send-ptr}
use v_net.NetQueue.Queue.{Queue, get_network_element_from_fd}
use v_net.NetQueue.Queue.Sound.{IsSound}
use v_net.NetQueue.Queue.Close.{element_at}
use v_net.NetQueue.Queue.Send.{Transmission, refuses, on_element, send, send_heartbeat}
use v_net.NetQueue.Queue.Transmit.{send-on_element}
use v_net.NetQueue.Queue.Turn.Settle.{kept-IsSound}
use v_net.Agent.{AgentState, try_hb, send_heartbeats}
use v_net.Agent.Program.{beat_all}

-- Every element of the second table was in the first, with the same object.
abbrev pub ComesFrom : Queue → Queue → Type 0
ComesFrom q q' =
    (r : ℕ) (el' : NetworkElement)
    → find r q'.elements ≡ some el'
    → (el : NetworkElement) × (find r q.elements ≡ some el) × (el'.ptr ≡ el.ptr)

written-ComesFrom :
    (p : ℕ) (el w : NetworkElement) (q : Queue)
    → find p q.elements ≡ some el
    → w.ptr ≡ el.ptr
    → ComesFrom q (record q { elements = insert p w q.elements })
written-ComesFrom p el w q found same r el' there = elim (ℕ_discrete p r) [
  | yes e ↦ (
    el,
    ap (λ x. find x q.elements) (sym e) ∙ found,
    ground (arith, there, e, same, find-insert p r w q.elements),
  )
  | no e ↦ (el', ground (arith, there, e, find-insert p r w q.elements), refl)
]

send_heartbeat-IsSound :
    (o : ByteOrder) (fd : ℤ) (s : List Outgoing) (q : Queue)
    → IsSound q
    → (t : Transmission) × (send_heartbeat o fd s q ≡ some t)
      × IsSound t.queue
      × ComesFrom q t.queue
unfolding send_heartbeat send
send_heartbeat-IsSound o fd s q sound =
    let header = header_bytes o (new_header o 0 heartbeat) in
    elim (Option-cases (get_network_element_from_fd fd q)) [
      | inl missing ↦ (refuses q s, ground (arith, missing), sound, λ r el there. (el, there, refl))
      | inr (p, at) ↦
          let (el, found, same) = element_at fd p q sound at in
          let w = (Write.send header el s).element in
          (
            on_element p q (Write.send header el s),
            send-on_element fd p header s el q at found,
            kept-IsSound p el w q sound found (send-fd header el s),
            written-ComesFrom p el w q found (send-ptr header el s),
          )
    ]

pub beat_all-IsSound :
    (o : ByteOrder) (fds : List ℤ) (s : List Outgoing) (q : Queue)
    → IsSound q
    → (q' : Queue) × (beat_all o fds s q ≡ some q') × IsSound q' × ComesFrom q q'
unfolding beat_all
beat_all-IsSound o [] s q sound = (q, refl, sound, λ r el there. (el, there, refl))
beat_all-IsSound o (fd ∷ fds) s q sound =
    let (t, one, sound1, from1) = send_heartbeat-IsSound o fd s q sound in
    let (q', more, sound2, from2) = beat_all-IsSound o fds t.script t.queue sound1 in
    (
      q',
      rw one more,
      sound2,
      λ r el' there.
          let (el1, there1, same1) = from2 r el' there in
          let (el, before, same) = from1 r el1 there1 in (el, before, same1 ∙ same),
    )

-- A heartbeat deletes nothing.
try_hb-keeps :
    (now : ℕ) (c : Option ℕ) (s s' : AgentState) (sent : List ℤ) (p : ℕ)
    → try_hb now c s ≡ some (s', sent)
    → find p s.conns ≢ none
    → find p s'.conns ≢ none
unfolding try_hb
try_hb-keeps now none s s' sent p done live gone = absurd (ground (arith, done, live, gone))
try_hb-keeps now (some x) s s' sent p done live gone = elim (Option-cases (find x s.conns)) [
  | inl e ↦ absurd (ground (arith, done, e))
  | inr (info, e) ↦ absurd (
      ground
        (arith, done, e, live, gone, find-insert x p (record info { last_hb_sent = now }) s.conns))
]

pub send_heartbeats-keeps :
    (now : ℕ) (s s' : AgentState) (sent : List ℤ) (p : ℕ)
    → send_heartbeats now s ≡ some (s', sent)
    → find p s.conns ≢ none
    → find p s'.conns ≢ none
unfolding send_heartbeats
send_heartbeats-keeps now s s' sent p done live = elim (Option-cases (try_hb now s.conductor s)) [
  | inl e ↦ absurd (ground (arith, done, e))
  | inr ((s1, a), e) ↦ elim (Option-cases (try_hb now s1.sw s1)) [
    | inl e' ↦ absurd (ground (arith, done, e, e'))
    | inr ((s2, b), e') ↦
        let first = try_hb-keeps now s.conductor s s1 a p e live in
        let second = try_hb-keeps now s1.sw s1 s2 b p e' first in
        λ gone. absurd (ground (arith, done, e, e', second, gone))
  ]
]
