-- ===== src/Agent/Program/Enter.antt =====
-- How src/agent/setup.cpp enters its event loop, and what holds from there on.
use v_net.Base.{
  ℕ, ℤ, some, List, ◌≡◌, ◌≢◌, ◌⊎◌, refl, sym, ap, ◌∙◌, arith, nat_eq, int_eq, inl, inr, subst,
}
use v_net.Base.Map.{find, insert, erase, find-insert, find-erase}
use v_net.Base.Heap.{field_at}
use v_net.Host.{ByteOrder}
use v_net.Protocol.Mip.{Coders}
use v_net.NetQueue.Element.{NetworkElement, new_element, sck_header}
use v_net.NetQueue.Queue.{Queue, PutChances, start, put_sck}
use v_net.NetQueue.Queue.Sound
use v_net.NetQueue.Queue.Sound.{IsAdmissible, put-IsSound}
use v_net.NetQueue.Queue.History.{start-IsSound}
use v_net.NetQueue.Queue.Turn.{passes}
use v_net.Agent.{AgentState, enter_loop}
use v_net.Agent.Life.{enter_loop-IsSound}
use v_net.Agent.Program.{IsLinked, Round, agent_loop}
use v_net.Agent.Program.Loop.{IsJoined, ComeInTurn, agent_loop-IsJoined}

-- What an address holds after `put_sck`: the new element, or what it held before.
put_sck-find :
    (c : PutChances) (x : ℕ) (fd : ℤ) (ptr : ℕ) (q : Queue) (r : ℕ) (el : NetworkElement)
    → find r (put_sck c x fd ptr q).1.elements ≡ some el
    → ((r ≡ x) × (el ≡ new_element fd ptr sck_header)) ⊎ (find r q.elements ≡ some el)
unfolding put_sck
put_sck-find c x fd ptr q r el e =
    let created = insert x (new_element fd ptr sck_header) q.elements in
    ground
      (arith, e, find-insert x r (new_element fd ptr sck_header) q.elements, find-erase x r created)

-- The queue that the loop starts with: its elements, if `put_sck` makes them, are at `x` and `y`.
unfoldable pub entered : PutChances → PutChances → ℕ → ℕ → ℕ → ℕ → ℤ → ℤ → Queue
unfolding put_sck
entered c d x y p q cdt_sock sw_sock = (put_sck d y sw_sock q (put_sck c x cdt_sock p start).1).1

module _ (c d : PutChances) (x y p q : ℕ) (a b : ℤ) where
  -- An element of that queue is the conductor's or the switch's.
  entered-find :
      (r : ℕ) (el : NetworkElement)
      → find r (entered c d x y p q a b).elements ≡ some el
      → ((r ≡ x) × (el ≡ new_element a p sck_header))
        ⊎ ((r ≡ y) × (el ≡ new_element b q sck_header))
  unfolding entered find
  entered-find r el e = elim (put_sck-find d y b q (put_sck c x a p start).1 r el e) [
    | inl last ↦ inr last
    | inr before ↦ elim (put_sck-find c x a p start r el before) [
      | inl first ↦ inl first
      | inr nothing ↦ absurd (ground (arith, nothing))
    ]
  ]

  entered-IsLinked :
      (now later : ℕ) → p ≢ q → IsLinked (entered c d x y p q a b) (enter_loop p q a b now later).0
  unfolding IsLinked enter_loop find insert new_element
  entered-IsLinked now later apart = (
    (λ r el e gone. elim (entered-find r el e) [
      | inl (at, same) ↦ absurd (ground (arith, gone, ap (λ z. z.ptr) same, apart))
      | inr (at, same) ↦ absurd (ground (arith, gone, ap (λ z. z.ptr) same, apart))
    ]),
    λ r r' el el' e e' same. elim (entered-find r el e) [
      | inl (at, is) ↦ elim (entered-find r' el' e') [
        | inl (at', is') ↦ at ∙ sym at'
        | inr (at', is') ↦ absurd (apart (sym (ap (λ z. z.ptr) is) ∙ same ∙ ap (λ z. z.ptr) is'))
      ]
      | inr (at, is) ↦ elim (entered-find r' el' e') [
        | inl (at', is') ↦
            absurd (apart (sym (ap (λ z. z.ptr) is') ∙ sym same ∙ ap (λ z. z.ptr) is))
        | inr (at', is') ↦ at ∙ sym at'
      ]
    ],
  )

  first-IsAdmissible : IsAdmissible c x a start
  unfolding IsAdmissible field_at find
  first-IsAdmissible = (refl, λ m. refl)

  second-IsAdmissible : x ≢ y → a ≢ b → IsAdmissible d y b (put_sck c x a p start).1
  unfolding IsAdmissible put_sck field_at find insert erase
  second-IsAdmissible other socks = (ground (arith, other), λ m. ground (arith, socks))

  entered-IsSound : x ≢ y → a ≢ b → Sound.IsSound (entered c d x y p q a b)
  unfolding entered put_sck
  entered-IsSound other socks =
      let (r, q1, one, sound1, put1) =
        put-IsSound c x a p sck_header start start-IsSound first-IsAdmissible in
      let sound : Sound.IsSound (put_sck c x a p start).1 =
        subst (λ z. Sound.IsSound z) (sym (ap (λ z. z.1) one)) sound1 in
      let (r', q2, two, sound2, put2) =
        put-IsSound d y b q sck_header (put_sck c x a p start).1 sound
          (second-IsAdmissible other socks) in
      subst (λ z. Sound.IsSound z) (sym (ap (λ z. z.1) two)) sound2

  -- The agent's event loop with its handlers and its event queue, from two calls of `put_sck` on the new
  -- queue, which may fail, for two different sockets, with different addresses for the two `ConnInfo`
  -- and for the two elements, over any number of turns. In each turn `epoll_wait` fails or
  -- gives a batch of events, each for another live element between two packets, whose reads give frames that fit the buffer, with
  -- fuel for each, and then dry up, would block, find the end, fail or are interrupted. Whatever
  -- connections close or fail on the way and whatever `write` does to the heartbeats, no deleted
  -- element and no deleted `ConnInfo` is used and the loop gets through. Afterwards both of the agent's
  -- pointers are null or live, the table is sound, and every element in it has a live `ConnInfo` of its
  -- own.
  pub agent_loop-entered :
      (o : ByteOrder) (coders : Coders) (now later : ℕ) (rs : List Round)
      → p ≢ q
      → x ≢ y
      → a ≢ b
      → ComeInTurn o coders rs (enter_loop p q a b now later).0 (entered c d x y p q a b)
      → (s' : AgentState) × (q' : Queue) × (agent_loop o coders rs
            (enter_loop p q a b now later).0
            (entered c d x y p q a b)
          ≡ passes (s', q'))
        × IsJoined s' q'
  agent_loop-entered o coders now later rs apart other socks turns =
      agent_loop-IsJoined o coders rs (enter_loop p q a b now later).0 (entered c d x y p q a b)
        (
          entered-IsSound other socks,
          enter_loop-IsSound p q a b now later,
          entered-IsLinked now later apart,
        )
        turns
