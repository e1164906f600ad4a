-- ===== src/Switch/Program/Follow.antt =====
-- What the handlers of src/switch/setup.cpp do on the event queue, against the switch's state alone.
use v_net.Base.{
  Bool-cases, subst, ℕ, false, none, some, List, [], ◌∷◌, ◌++◌, ◌≡◌, ◌≢◌, ◌⊎◌, ◌<◌, ◌^◌, ◌&&◌, ◌+◌,
  refl, ap, ◌∙◌, arith, nat_eq, int_eq, length, inl, inr, Option-cases,
}
use v_net.Base.Map.{find, insert, find-insert, find-insert_self}
use v_net.Host.{ByteOrder}
use v_net.Protocol.Header.{connection_accepted}
use v_net.Protocol.Dispatch.{
  MethodCall, calls_heartbeat, calls_switch_mip, calls_agent_mip, calls_connect_to_switch,
  calls_agent_connection_token, calls_auth_connect_to_switch, calls_connection_accepted,
  calls_agent_mrp, on_socket_ready,
}
use v_net.Protocol.Mip.{PacketAuthConnectToSwitch, Coders, mip_messages}
use v_net.NetQueue.Element.{NetworkElement, SocketData}
use v_net.NetQueue.Write
use v_net.NetQueue.Write.{Outgoing, Sent}
use v_net.NetQueue.Write.Order.{pending, IsBounded}
use v_net.NetQueue.Write.Messages.{send_message-order, send_message-IsBounded, chain}
use v_net.NetQueue.Write.Descriptor.{send_message-fd, send_message-ptr}
use v_net.NetQueue.Process.Follow.{Does, write_side}
use v_net.NetQueue.Queue.{Queue}
use v_net.NetQueue.Queue.Send.{on_element}
use v_net.NetQueue.Queue.Transmit.{send_message-on_element}
use v_net.NetQueue.Queue.Turn.{handler_at, at_element}
use v_net.Switch.{
  SwitchState, QueueCall, queue_send_accepted, on_agent_connection_token, on_auth_connect_to_switch,
}
use v_net.Switch.Program.{World, after_send, perform, perform_all, on_call, switch_handler}
use v_net.Switch.Program.Takes.{Progress, answer, takes_call, takes_packet, auth-answers}

-- The connection at `p`: its descriptor and what was owed to it before.
module _ (o : ByteOrder) (c : Coders) (clock : ℕ → ℕ) (p : ℕ) (q0 : Queue) (el0 : NetworkElement)
    (owed0 : List ℕ) (at : find el0.fd q0.fd_to_network_element ≡ some p)
    (short : length (c.connection_accepted.serialize tt) < 2 ^ 32) where
  -- What the program's state and the element in use have to do with the progress: the table is that
  -- of `q0` but for the element, and unless a `send` failed, what was written and what is owed are
  -- what was owed before and the answers.
  unfoldable pub IsHeld : Progress → World × Queue → NetworkElement → Type 0
  IsHeld (s, n, out) (w, q) el =
      (w.state ≡ s)
      × (w.readings ≡ n)
      × (q.fd_to_network_element ≡ q0.fd_to_network_element)
      × (el.fd ≡ el0.fd)
      × (el.ptr ≡ el0.ptr)
      × IsBounded el
      × ((r : ℕ) → p ≢ r → find r q.elements ≡ find r q0.elements)
      × ((w.all_sent ≡ false) ⊎ (w.wire ++ pending el ≡ owed0 ++ out))

  abbrev in_use : NetworkElement → Queue → Queue
  in_use el q = record q { elements = insert p el q.elements }

  -- What `send` leaves of the acceptance.
  abbrev accepting : World → NetworkElement → Sent
  accepting w el =
      Write.send_message o connection_accepted (some (c.connection_accepted.serialize tt)) el
        w.writes

  accounted :
      (w : World) (el : NetworkElement) (out : List ℕ)
      → IsBounded el
      → ((w.all_sent ≡ false) ⊎ (w.wire ++ pending el ≡ owed0 ++ out))
      → ((w.all_sent && (accepting w el).ok ≡ false)
          ⊎ ((w.wire ++ (accepting w el).wire) ++ pending (accepting w el).element
              ≡ owed0 ++ (out ++ answer c clock)))
  accounted w el out bounded (inl failed) = inl (ground (arith, failed))
  accounted w el out bounded (inr owed) = elim (Bool-cases (accepting w el).ok) [
    | inl done ↦ inr (
        chain w.wire (accepting w el).wire owed0 (pending el) (pending (accepting w el).element) out
          (answer c clock) owed
          (send_message-order o connection_accepted (c.connection_accepted.serialize tt) el w.writes
            bounded short (omega arith) done))
    | inr stopped ↦ inl (ground (arith, stopped))
  ]

  performed :
      (w : World) (q : Queue) (el : NetworkElement)
      → q.fd_to_network_element ≡ q0.fd_to_network_element
      → el.fd ≡ el0.fd
      → perform_all o c clock (queue_send_accepted el.fd ∷ []) w (in_use el q)
        ≡ some (after_send w (on_element p (in_use el q) (accepting w el)))
  unfolding perform_all perform
  performed w q el table fd =
      let there : find el.fd q.fd_to_network_element ≡ some p =
        ap (λ t. find el.fd t) table ∙ ap (λ x. find x q0.fd_to_network_element) fd ∙ at in
      rw
        (send_message-on_element el.fd p o connection_accepted (c.connection_accepted.serialize tt)
          w.writes el (in_use el q) there (find-insert_self p el q.elements))
        refl

  -- A packet for which nothing happens.
  stays-IsHeld :
      (x : Progress) (w : World) (q : Queue) (el : NetworkElement)
      → IsHeld x (w, q) (write_side el)
      → IsHeld x (w, in_use el q) (write_side el)
  unfolding IsHeld
  stays-IsHeld x w q el (st, rd, table, fd, ptr, bounded, others, owed) = (
    st,
    rd,
    table,
    fd,
    ptr,
    bounded,
    (λ r other. ground (arith, find-insert p r el q.elements, others r)),
    owed,
  )

  -- What a call of a virtual method leads to.
  abbrev Called :
      MethodCall (mip_messages c) → SocketData → Progress → World → Queue → NetworkElement → Type 0
  Called call d x' w q el =
      (w' : World) × (q' : Queue) × (el' : NetworkElement) × (on_call o c clock call d w
          (in_use el q)
        ≡ some (w', q'))
      × (find p q'.elements ≡ some el')
      × IsHeld x' (w', q') (write_side el')
      × (el'.fd ≡ el.fd)
      × (el'.ptr ≡ el.ptr)

  ignored :
      (call : MethodCall (mip_messages c)) (d : SocketData) (x x' : Progress) (w : World)
      (q : Queue) (el : NetworkElement)
      → IsHeld x (w, q) (write_side el)
      → on_call o c clock call d w (in_use el q) ≡ some (w, in_use el q)
      → some x ≡ some x'
      → Called call d x' w q el
  ignored call d x x' w q el held same e = (
    w,
    in_use el q,
    el,
    same,
    find-insert_self p el q.elements,
    subst (λ y. IsHeld y (w, in_use el q) (write_side el)) (ground (arith, e))
        (stays-IsHeld x w q el held),
    refl,
    refl,
  )

  told :
      (token : ℕ) (name : List ℕ) (s : SwitchState) (n : ℕ) (out : List ℕ) (w : World) (q : Queue)
      (el : NetworkElement)
      → IsHeld (s, n, out) (w, q) (write_side el)
      → IsHeld
          (on_agent_connection_token token name (clock n) s, n + 1, out)
          (
            record w {
              state = on_agent_connection_token token name (clock w.readings) w.state;
              readings = w.readings + 1;
            },
            in_use el q,
          )
          (write_side el)
  unfolding IsHeld
  told token name s n out w q el (st, rd, table, fd, ptr, bounded, others, owed) = (
    rw (st, rd) refl,
    rw rd refl,
    table,
    fd,
    ptr,
    bounded,
    (λ r other. ground (arith, find-insert p r el q.elements, others r)),
    owed,
  )

  -- The acceptance of a known token.
  answered :
      (s s' : SwitchState) (n : ℕ) (out : List ℕ) (w : World) (q : Queue) (el : NetworkElement)
      → IsHeld (s, n, out) (w, q) (write_side el)
      → IsHeld
          (s', n, out ++ answer c clock)
          (after_send (record w { state = s' }) (on_element p (in_use el q) (accepting w el)))
          (write_side (accepting w el).element)
  unfolding IsHeld IsBounded
  answered s s' n out w q el (st, rd, table, fd, ptr, bounded, others, owed) =
      let body = c.connection_accepted.serialize tt in
      let r = accepting w el in
      (
        refl,
        rd,
        table,
        send_message-fd o connection_accepted (some body) el w.writes ∙ fd,
        send_message-ptr o connection_accepted (some body) el w.writes ∙ ptr,
        send_message-IsBounded o connection_accepted body el w.writes bounded,
        (λ x other. ground (
          arith,
          find-insert p x r.element (insert p el q.elements),
          find-insert p x el q.elements,
          others x,
        )),
        accounted w el out bounded owed,
      )

  accepted :
      (d : SocketData) (pkt : PacketAuthConnectToSwitch) (s s' : SwitchState)
      (calls : List QueueCall) (n : ℕ) (out : List ℕ) (w : World) (q : Queue) (el : NetworkElement)
      → IsHeld (s, n, out) (w, q) (write_side el)
      → d.fd ≡ el.fd
      → find pkt.connection_token s.pending_tokens ≢ none
      → on_auth_connect_to_switch d.ptr_data d.fd pkt.connection_token s ≡ some (s', calls)
      → Called (calls_auth_connect_to_switch pkt) d (s', n, out ++ answer c clock) w q el
  unfolding on_call IsHeld
  accepted d pkt s s' calls n out w q el held fd known done =
      let (st, rd, table, fd0, ptr, bounded, others, owed) = held in
      let w1 : World = record w { state = s' } in
      let r = accepting w el in
      let one : calls ≡ queue_send_accepted el.fd ∷ [] =
        auth-answers d.ptr_data d.fd pkt.connection_token s s' calls known done
        ∙ ap (λ x. queue_send_accepted x ∷ []) fd in
      let here : on_auth_connect_to_switch d.ptr_data d.fd pkt.connection_token w.state
          ≡ some (s', calls) =
        ap (λ z. on_auth_connect_to_switch d.ptr_data d.fd pkt.connection_token z) st ∙ done in
      let whole : perform_all o c clock calls w1 (in_use el q)
          ≡ some (after_send w1 (on_element p (in_use el q) r)) =
        ap (λ l. perform_all o c clock l w1 (in_use el q)) one ∙ performed w1 q el table fd0 in
      (
        (after_send w1 (on_element p (in_use el q) r)).0,
        (after_send w1 (on_element p (in_use el q) r)).1,
        r.element,
        rw here whole,
        find-insert_self p r.element (insert p el q.elements),
        answered s s' n out w q el held,
        send_message-fd o connection_accepted (some (c.connection_accepted.serialize tt)) el
            w.writes,
        send_message-ptr o connection_accepted (some (c.connection_accepted.serialize tt)) el
            w.writes,
      )

  call-Called :
      (call : MethodCall (mip_messages c)) (d : SocketData) (s : SwitchState) (n : ℕ) (out : List ℕ)
      (x' : Progress) (w : World) (q : Queue) (el : NetworkElement)
      → IsHeld (s, n, out) (w, q) (write_side el)
      → d.fd ≡ el.fd
      → takes_call c clock call d (s, n, out) ≡ some x'
      → Called call d x' w q el
  unfolding takes_call on_call
  call-Called calls_heartbeat d s n out x' w q el held fd e =
      ignored calls_heartbeat d (s, n, out) x' w q el held refl e
  call-Called (calls_switch_mip pkt) d s n out x' w q el held fd e =
      ignored (calls_switch_mip pkt) d (s, n, out) x' w q el held refl e
  call-Called (calls_agent_mip pkt) d s n out x' w q el held fd e =
      ignored (calls_agent_mip pkt) d (s, n, out) x' w q el held refl e
  call-Called (calls_connect_to_switch pkt) d s n out x' w q el held fd e =
      ignored (calls_connect_to_switch pkt) d (s, n, out) x' w q el held refl e
  call-Called (calls_connection_accepted pkt) d s n out x' w q el held fd e =
      ignored (calls_connection_accepted pkt) d (s, n, out) x' w q el held refl e
  call-Called (calls_agent_mrp pkt) d s n out x' w q el held fd e =
      ignored (calls_agent_mrp pkt) d (s, n, out) x' w q el held refl e
  call-Called (calls_agent_connection_token pkt) d s n out x' w q el held fd e =
      let w1 : World = record w {
        state =
            on_agent_connection_token pkt.connection_token pkt.agent_name (clock w.readings)
              w.state;
        readings = w.readings + 1;
      } in
      (
        w1,
        in_use el q,
        el,
        refl,
        find-insert_self p el q.elements,
        subst (λ y. IsHeld y (w1, in_use el q) (write_side el)) (ground (arith, e))
            (told pkt.connection_token pkt.agent_name s n out w q el held),
        refl,
        refl,
      )
  call-Called (calls_auth_connect_to_switch pkt) d s n out x' w q el held fd e =
      elim (Option-cases (find pkt.connection_token s.pending_tokens)) [
        | inl unknown ↦ absurd (ground (arith, e, unknown))
        | inr (t, known) ↦
            elim (Option-cases (on_auth_connect_to_switch d.ptr_data d.fd pkt.connection_token s)) [
              | inl gone ↦ absurd (ground (arith, e, known, gone))
              | inr ((s', calls), done) ↦
                  subst (λ y. Called (calls_auth_connect_to_switch pkt) d y w q el)
                    (ground (arith, e, known, done))
                    (accepted d pkt s s' calls n out w q el held fd
                      (λ no_token. absurd (ground (arith, known, no_token))) done)
            ]
      ]

  packet-Called :
      (d : SocketData) (x x' : Progress) (w : World) (q : Queue) (el : NetworkElement)
      → IsHeld x (w, q) (write_side el)
      → d.fd ≡ el.fd
      → takes_packet c clock x d ≡ some x'
      → (w' : World) × (q' : Queue) × (el' : NetworkElement) × ((switch_handler o c
              clock).on_socket_ready
            w
            (in_use el q)
            d
          ≡ some (w', q'))
        × (find p q'.elements ≡ some el')
        × IsHeld x' (w', q') (write_side el')
        × (el'.fd ≡ el.fd)
        × (el'.ptr ≡ el.ptr)
  unfolding takes_packet switch_handler
  packet-Called d (s, n, out) x' w q el held fd e =
      elim (Option-cases (on_socket_ready (mip_messages c) d)) [
        | inl unknown ↦ (
          w,
          in_use el q,
          el,
          rw (unknown, switch_handler) refl,
          find-insert_self p el q.elements,
          subst (λ y. IsHeld y (w, in_use el q) (write_side el)) (ground (arith, e, unknown))
              (stays-IsHeld (s, n, out) w q el held),
          refl,
          refl,
        )
        | inr (call, parsed) ↦
            let (w', q', el', done, there, held', fd', ptr') =
              call-Called call d s n out x' w q el held fd (ground (arith, e, parsed)) in
            (w', q', el', rw (parsed, switch_handler) done, there, held', fd', ptr')
      ]

  pub handler-Does : Does IsHeld (takes_packet c clock) (handler_at o (switch_handler o c clock) p)
  unfolding Does handler_at at_element
  handler-Does x x' (w, q) el d held fd ptr e =
      let (w', q', el', done, there, held', fd', ptr') = packet-Called d x x' w q el held fd e in
      ((w', q'), el', rw (done, there) refl, held', fd', ptr')
