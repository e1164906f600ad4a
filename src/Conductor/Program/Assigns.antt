-- ===== src/Conductor/Program/Assigns.antt =====
-- An agent's first packet on the event queue of src/conductor/setup.cpp.
use v_net.Base.{
  ℕ, ℤ, true, Option, some, List, [], ◌∷◌, ◌++◌, ◌≡◌, ◌<◌, ◌≤◌, ◌^◌, ◌+◌, ◌*◌, refl, ◌∙◌, arith,
  nat_eq, int_eq, length, inl, inr, Option-cases, append_assoc,
}
use v_net.Base.Map.{find, insert, find-insert}
use v_net.Base.Pointers.{member, member-append}
use v_net.Host.{ByteOrder}
use v_net.Protocol.Mip.{Coders, mip_messages, PacketAgentMip}
use v_net.Protocol.Dispatch.{MethodCall, calls_agent_mip}
use v_net.Protocol.Dispatch.Roundtrip.{packet_for, on_socket_ready-packet_for}
use v_net.NetQueue.Element.{NetworkElement}
use v_net.NetQueue.Kernel.{Incoming}
use v_net.NetQueue.Process.Follow.{or_failed, read_side}
use v_net.NetQueue.Process.Frames.{encode, Fits, IsChunks, stream, deliver, data_of}
use v_net.NetQueue.Queue.{Queue}
use v_net.NetQueue.Queue.Turn.{process_at, passes}
use v_net.NetQueue.Queue.Turn.Receive.{idle}
use v_net.NetQueue.Queue.Turn.Keep.{process_at-takes}
use v_net.Sockets.{is_success}
use v_net.Conductor.{
  ConnInfo, ConductorState, Chances, sends, agent_conn, tell_agent, notify_switch, push_agent,
  on_agent_mip,
}
use v_net.Conductor.Announce.{
  assigned, announced, assigned_frame, announced_frame, assign_switch-announces,
}
use v_net.Conductor.Pick.{HasLiveSwitches, IsChoice, pick_switch-IsChoice}
use v_net.Conductor.Program.{World, note_sent, handled_with, chances_of, conductor_handler}
use v_net.Conductor.Program.Takes.{note, takes_call, takes_packet, conductor_handler-TakesQuietly}

-- The state once the connection is known as the agent's.
abbrev pub with_agent :
    Chances → ℕ → ℤ → PacketAgentMip → ConnInfo → ConductorState → ConductorState
with_agent c p fd pkt info s = record s {
  conns =
      insert p
        (record info {
          role = agent_conn;
          name = pkt.name;
          auth_key = pkt.auth_key;
          network = pkt.network;
          fd = fd;
          connected_at_ms = c.now_ms;
        })
        s.conns;
}

-- The assignment to a switch fits a packet, and the agent's socket takes it.
abbrev pub IsSendable : Chances → ConnInfo → Type 0
IsSendable c sw =
    (length (c.coders.connect_to_switch.serialize (assigned sw c.token)) < 2 ^ 32)
    × (is_success (tell_agent c sw).ending ≡ true)

with_agent-HasLiveSwitches :
    (c : Chances) (p : ℕ) (fd : ℤ) (pkt : PacketAgentMip) (info : ConnInfo) (s : ConductorState)
    → HasLiveSwitches s
    → HasLiveSwitches (with_agent c p fd pkt info s)
unfolding HasLiveSwitches
with_agent-HasLiveSwitches c p fd pkt info s live q m gone = ground (
  arith,
  live q m,
  gone,
  find-insert p q
      (record info {
        role = agent_conn;
        name = pkt.name;
        auth_key = pkt.auth_key;
        network = pkt.network;
        fd = fd;
        connected_at_ms = c.now_ms;
      })
      s.conns,
)

-- The handler, when the writes to the agent and to whichever switch succeed.
on_agent_mip-assigns :
    (c : Chances) (p : ℕ) (fd : ℤ) (pkt : PacketAgentMip) (s : ConductorState) (info : ConnInfo)
    → find p s.conns ≡ some info
    → HasLiveSwitches s
    → 0 < length s.switches
    → s.rr_index + length s.switches ≤ 2 ^ 64
    → ((q : ℕ) (sw : ConnInfo)
        → member q s.switches ≡ true
        → find q (with_agent c p fd pkt info s).conns ≡ some sw
        → IsSendable c sw)
    → length (c.coders.agent_connection_token.serialize (announced pkt.name c.token)) < 2 ^ 32
    → is_success (notify_switch c pkt.name).ending ≡ true
    → (q k : ℕ) × (sw : ConnInfo) × (find q (with_agent c p fd pkt info s).conns ≡ some sw)
      × IsChoice pkt.network (with_agent c p fd pkt info s) q
      × (on_agent_mip c p fd pkt s
          ≡ some (
            push_agent c p pkt.name sw (record (with_agent c p fd pkt info s) { rr_index = k }),
            sends fd (assigned_frame c.coders sw c.token)
                ∷ sends sw.fd (announced_frame c.coders pkt.name c.token)
                ∷ [],
          ))
unfolding on_agent_mip HasLiveSwitches IsChoice
on_agent_mip-assigns c p fd pkt s info found live some_switch fits told short noticed =
    let s1 = with_agent c p fd pkt info s in
    let live1 = with_agent-HasLiveSwitches c p fd pkt info s live in
    let (q, k, picked, choice) = pick_switch-IsChoice pkt.network s1 live1 some_switch fits in
    elim (Option-cases (find q s1.conns)) [
      | inl gone ↦ absurd (live1 q choice.0 gone)
      | inr (sw, there) ↦
          let s2 : ConductorState = record s1 { rr_index = k } in
          let sendable = told q sw choice.0 there in
          let assigned =
            assign_switch-announces c p fd pkt.name q sw s2 there sendable.0 sendable.1 short
              noticed in
          (q, k, sw, there, choice, rw (found, picked) assigned)
    ]

module _ (o : ByteOrder) (c : Coders) (chances : ℕ → Chances) (peer : ℤ → Option ℕ) where
  -- One packet for a method.
  one_frame :
      (el : NetworkElement) (w : World) (call : MethodCall (mip_messages c))
      → deliver
          (or_failed (takes_packet c chances peer))
          (read_side el)
          (some w)
          (packet_for (mip_messages c) call ∷ [])
        ≡ takes_call c chances peer call (data_of el (packet_for (mip_messages c) call)) w
  unfolding deliver takes_packet
  one_frame el w call =
      rw (on_socket_ready-packet_for (mip_messages c) (read_side el) call, takes_packet) refl

  -- What is left when both were told.
  abbrev told_both : ConductorState → ℤ → List ℕ → ℤ → List ℕ → World → World
  told_both s fd bytes fd' bytes' w = note_sent fd' bytes' (note_sent fd bytes (handled_with s w))

  mip_taken :
      (el : NetworkElement) (w : World) (pkt : PacketAgentMip) (s : ConductorState) (fd' : ℤ)
      (bytes bytes' : List ℕ)
      → on_agent_mip (chances_of c chances peer w) el.ptr el.fd pkt w.state
        ≡ some (s, sends el.fd bytes ∷ sends fd' bytes' ∷ [])
      → deliver
          (or_failed (takes_packet c chances peer))
          (read_side el)
          (some w)
          (packet_for (mip_messages c) (calls_agent_mip pkt) ∷ [])
        ≡ some (told_both s el.fd bytes fd' bytes' w)
  unfolding takes_call note
  mip_taken el w pkt s fd' bytes bytes' done =
      one_frame el w (calls_agent_mip pkt) ∙ (rw (done, takes_call, note) refl)

  -- The conductor's handlers on its event queue: when a live connection between two packets brings the
  -- frame of an agent's first packet, cut in any way and with fuel for it, then, if the connection has
  -- its `ConnInfo`, there is a switch, all of them live, the round robin does not wrap around, the
  -- messages to the agent and to the switch are shorter than 2 ^ 32 bytes and the writes of them
  -- succeed, the reads end without a fault. One of the switches, one that the agent reaches if there is
  -- any, was chosen; to the agent went one frame, which tells it the switch's name, address and port and
  -- the token that was drawn, and after it to that switch one frame, which tells it the agent's name
  -- and the same token, and nothing else was sent; the agent is listed, its token is pending, and the
  -- table is as it was.
  pub agent_mip_frame-assigns :
      (fuel p : ℕ) (s : List Incoming) (el : NetworkElement) (w : World) (q : Queue)
      (pkt : PacketAgentMip) (info : ConnInfo)
      → find p q.elements ≡ some el
      → idle el ≡ el
      → IsChunks s
      → Fits (packet_for (mip_messages c) (calls_agent_mip pkt) ∷ [])
      → stream s ≡ encode (packet_for (mip_messages c) (calls_agent_mip pkt) ∷ [])
      → 4 * length (stream s) + 1 < fuel
      → find el.ptr w.state.conns ≡ some info
      → HasLiveSwitches w.state
      → 0 < length w.state.switches
      → w.state.rr_index + length w.state.switches ≤ 2 ^ 64
      → ((r : ℕ) (sw : ConnInfo)
          → member r w.state.switches ≡ true
          → find r (with_agent (chances_of c chances peer w) el.ptr el.fd pkt info w.state).conns
            ≡ some sw
          → IsSendable (chances_of c chances peer w) sw)
      → length (c.agent_connection_token.serialize (announced pkt.name (chances w.handled).token))
        < 2 ^ 32
      → is_success (notify_switch (chances_of c chances peer w) pkt.name).ending ≡ true
      → (x : World) × (r : ℕ) × (sw : ConnInfo) × (process_at o
            (conductor_handler c chances peer)
            fuel
            p
            s
            el
            w
            q
          ≡ passes (x, q))
        × IsChoice pkt.network
            (with_agent (chances_of c chances peer w) el.ptr el.fd pkt info w.state)
            r
        × (find r (with_agent (chances_of c chances peer w) el.ptr el.fd pkt info w.state).conns
            ≡ some sw)
        × (x.sent
            ≡ w.sent
              ++ (el.fd, assigned_frame c sw (chances w.handled).token)
                ∷ (sw.fd, announced_frame c pkt.name (chances w.handled).token)
                ∷ [])
        × (member el.ptr x.state.agents ≡ true)
        × (x.state.pending_tokens
            ≡ w.state.pending_tokens
              ++ record {
                agent_name = pkt.name;
                switch_name = sw.name;
                created_at_ms = (chances w.handled).later_ms;
                token = (chances w.handled).token;
              }
                ∷ [])
  agent_mip_frame-assigns fuel p s el w q pkt info found still ch fits e enough known live
        some_switch wraps told short noticed =
      let ch' = chances_of c chances peer w in
      let (r, k, sw, there, choice, done) =
        on_agent_mip-assigns ch' el.ptr el.fd pkt w.state info known live some_switch wraps told
          short noticed in
      let s1 : ConductorState = record (with_agent ch' el.ptr el.fd pkt info w.state) {
        rr_index = k;
      } in
      let s2 = push_agent ch' el.ptr pkt.name sw s1 in
      let bytes = assigned_frame c sw ch'.token in
      let bytes' = announced_frame c pkt.name ch'.token in
      let x = told_both s2 el.fd bytes sw.fd bytes' w in
      (
        x,
        r,
        sw,
        process_at-takes o (conductor_handler c chances peer) (takes_packet c chances peer)
            (conductor_handler-TakesQuietly c chances peer) p q el fuel s w x
            (packet_for (mip_messages c) (calls_agent_mip pkt) ∷ []) found still ch fits e enough
            (mip_taken el w pkt s2 sw.fd bytes bytes' done),
        choice,
        there,
        append_assoc w.sent ((el.fd, bytes) ∷ []) ((sw.fd, bytes') ∷ []),
        ground (arith, member-append el.ptr el.ptr w.state.agents),
        refl,
      )
