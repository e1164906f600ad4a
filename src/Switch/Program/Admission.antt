-- ===== src/Switch/Program/Admission.antt =====
-- One admission on the event queue of src/switch/setup.cpp: the conductor's notice is read on one
-- connection and then the agent's token on another.
use v_net.Base.{
  ℕ, true, false, some, List, [], ◌∷◌, ◌++◌, ◌≡◌, ◌≢◌, ◌⊎◌, ◌<◌, ◌^◌, ◌+◌, ◌*◌, refl, ap, ◌∙◌,
  nat_eq, int_eq, length, Text,
}
use v_net.Base.Map.{find, find-insert_self}
use v_net.Base.Pointers.{member}
use v_net.Host.{ByteOrder}
use v_net.Protocol.Mip.{Coders, mip_messages, PacketAgentConnectionToken, PacketAuthConnectToSwitch}
use v_net.Protocol.Dispatch.{MethodCall, calls_agent_connection_token, calls_auth_connect_to_switch}
use v_net.Protocol.Dispatch.Roundtrip.{packet_for, on_socket_ready-packet_for}
use v_net.NetQueue.Element.{NetworkElement}
use v_net.NetQueue.Kernel.{Incoming}
use v_net.NetQueue.Write.Order.{pending, IsBounded}
use v_net.NetQueue.Process.Follow.{read_side}
use v_net.NetQueue.Process.Frames.{Frame, encode, Fits, IsChunks, stream, deliver, data_of}
use v_net.NetQueue.Queue.{Queue}
use v_net.NetQueue.Queue.Sound.{IsSound}
use v_net.NetQueue.Queue.Turn.{process_at, passes}
use v_net.NetQueue.Queue.Turn.Receive.{idle}
use v_net.Switch.{
  SwitchState, ConnInfo, agent_authenticated, on_agent_connection_token, on_auth_connect_to_switch,
  queue_send_accepted, PendingToken,
}
use v_net.Switch.Admit.{admit}
use v_net.Switch.Program.{World, switch_handler}
use v_net.Switch.Program.Takes.{Progress, answer, takes_packet, takes_call}
use v_net.Switch.Program.Deliver.{takes_frames, IsRead, process_at-IsRead}

module _ (o : ByteOrder) (c : Coders) (clock : ℕ → ℕ) where
  -- One packet for a method.
  one_packet :
      (el : NetworkElement) (x : Progress) (call : MethodCall (mip_messages c))
      → takes_packet c clock x (data_of el (packet_for (mip_messages c) call))
        ≡ takes_call c clock call (data_of el (packet_for (mip_messages c) call)) x
  unfolding takes_packet
  one_packet el x call = rw (on_socket_ready-packet_for (mip_messages c) el call, takes_packet) refl

  one_frame :
      (short : length (c.connection_accepted.serialize tt) < 2 ^ 32) (el : NetworkElement)
      (x : Progress) (call : MethodCall (mip_messages c))
      → takes_frames o c clock short el x (packet_for (mip_messages c) call ∷ [])
        ≡ takes_call c clock call (data_of el (packet_for (mip_messages c) call)) x
  unfolding deliver
  one_frame short el x call = one_packet (read_side el) x call

  notice_taken :
      (short : length (c.connection_accepted.serialize tt) < 2 ^ 32) (el : NetworkElement)
      (s : SwitchState) (n : ℕ) (pkt : PacketAgentConnectionToken)
      → takes_frames o c clock short el
          (s, n, [])
          (packet_for (mip_messages c) (calls_agent_connection_token pkt) ∷ [])
        ≡ some
            (on_agent_connection_token pkt.connection_token pkt.agent_name (clock n) s, n + 1, [])
  unfolding takes_call
  notice_taken short el s n pkt = one_frame short el (s, n, []) (calls_agent_connection_token pkt)

  token_taken :
      (short : length (c.connection_accepted.serialize tt) < 2 ^ 32) (el : NetworkElement)
      (s s' : SwitchState) (n : ℕ) (pkt : PacketAuthConnectToSwitch) (t : PendingToken)
      → find pkt.connection_token s.pending_tokens ≡ some t
      → on_auth_connect_to_switch el.ptr el.fd pkt.connection_token s
        ≡ some (s', queue_send_accepted el.fd ∷ [])
      → takes_frames o c clock short el
          (s, n, [])
          (packet_for (mip_messages c) (calls_auth_connect_to_switch pkt) ∷ [])
        ≡ some (s', n, answer c clock)
  unfolding takes_call
  token_taken short el s s' n pkt t known done =
      one_frame short el (s, n, []) (calls_auth_connect_to_switch pkt)
      ∙ (rw (known, done, takes_call) refl)

  abbrev pub notice_frame : ℕ → Text → Frame
  notice_frame token name =
      packet_for (mip_messages c)
        (calls_agent_connection_token (record { agent_name = name; connection_token = token }))

  abbrev pub token_frame : ℕ → Frame
  token_frame token =
      packet_for (mip_messages c)
        (calls_auth_connect_to_switch (record { connection_token = token }))

  -- What one connection's reads bring.
  abbrev pub Brings : ℕ → List Incoming → Frame → Type 0
  Brings fuel s x =
      IsChunks s × Fits (x ∷ []) × (stream s ≡ encode (x ∷ [])) × (4 * length (stream s) + 1 < fuel)

  -- A live connection between two packets.
  abbrev pub IsWaiting : ℕ → Queue → NetworkElement → Type 0
  IsWaiting p q el = (find p q.elements ≡ some el) × (idle el ≡ el) × IsBounded el

  second_read :
      (short : length (c.connection_accepted.serialize tt) < 2 ^ 32) (token : ℕ) (name : Text)
      (fuel p : ℕ) (s : List Incoming) (el : NetworkElement) (now : ℕ) (w : World)
      (st : SwitchState) (q : Queue) (info : ConnInfo)
      → IsSound q
      → IsWaiting p q el
      → Brings fuel s (token_frame token)
      → w.state ≡ on_agent_connection_token token name now st
      → find el.ptr st.conns ≡ some info
      → (w' : World) × (q' : Queue) × (el' : NetworkElement) × (process_at o
            (switch_handler o c clock)
            fuel
            p
            s
            el
            w
            q
          ≡ passes (w', q'))
        × IsSound q'
        × (find p q'.elements ≡ some el')
        × (find el.ptr w'.state.conns
            ≡ some (record info { role = agent_authenticated; name = name }))
        × (member el.ptr w'.state.agents ≡ true)
        × ((w'.all_sent ≡ false)
            ⊎ (w'.wire ++ pending el' ≡ (w.wire ++ pending el) ++ answer c clock))
  unfolding IsRead on_agent_connection_token
  second_read short token name fuel p s el now w st q info sound (found, still, bounded)
        (ch, fits, e, enough) told known =
      let (s', done, named, listed) = admit token name now el.ptr el.fd st info known in
      let pkt : PacketAuthConnectToSwitch = record { connection_token = token } in
      let t : PendingToken = record { agent_name = name; created = now } in
      let waits : find token w.state.pending_tokens ≡ some t =
        ap (λ z. find token z.pending_tokens) told ∙ find-insert_self token t st.pending_tokens in
      let admitted : on_auth_connect_to_switch el.ptr el.fd token w.state
          ≡ some (s', queue_send_accepted el.fd ∷ []) =
        ap (on_auth_connect_to_switch el.ptr el.fd token) told ∙ done in
      let (w', q', el', read, (state, rd, sound', there, still', fd, ptr, bounded', others, owed)) =
        process_at-IsRead o c clock short fuel p s el w q (token_frame token ∷ [])
          (s', w.readings, answer c clock) sound found still bounded ch fits e enough
          (token_taken short el w.state s' w.readings pkt t waits admitted) in
      (
        w',
        q',
        el',
        read,
        sound',
        there,
        ap (λ z. find el.ptr z.conns) state ∙ named,
        ap (λ z. member el.ptr z.agents) state ∙ listed,
        owed,
      )

  -- The switch's handlers on its event queue, with a sound table, two live connections between two
  -- packets and fuel for what they bring. The conductor's connection brings the notice of a token,
  -- and the agent's connection, which has its `ConnInfo`, brings that token, each frame cut in any
  -- way. Reading the first and then the second never faults: the agent's connection is then listed
  -- as authenticated under the name of the notice, the table is sound, and either a `send` has failed
  -- or the acceptance has been written or is owed to that connection, behind what was before.
  pub notice_then_token-admits :
      (short : length (c.connection_accepted.serialize tt) < 2 ^ 32) (token : ℕ) (name : Text)
      (fuel p r : ℕ) (s t : List Incoming) (el er : NetworkElement) (w : World) (q : Queue)
      (info : ConnInfo)
      → IsSound q
      → p ≢ r
      → IsWaiting p q el
      → IsWaiting r q er
      → Brings fuel s (notice_frame token name)
      → Brings fuel t (token_frame token)
      → find er.ptr w.state.conns ≡ some info
      → (w1 : World) × (q1 : Queue) × (process_at o (switch_handler o c clock) fuel p s el w q
          ≡ passes (w1, q1))
        × ((w2 : World) × (q2 : Queue) × (er2 : NetworkElement) × (process_at o
                (switch_handler o c clock)
                fuel
                r
                t
                er
                w1
                q1
              ≡ passes (w2, q2))
            × IsSound q2
            × (find r q2.elements ≡ some er2)
            × (find er.ptr w2.state.conns
                ≡ some (record info { role = agent_authenticated; name = name }))
            × (member er.ptr w2.state.agents ≡ true)
            × ((w2.all_sent ≡ false)
                ⊎ (w2.wire ++ pending er2 ≡ (w1.wire ++ pending er) ++ answer c clock)))
  unfolding IsRead
  notice_then_token-admits short token name fuel p r s t el er w q info sound apart
        (found, still, bounded) waiting (ch, fits, e, enough) brings known =
      let pkt : PacketAgentConnectionToken = record {
        agent_name = name;
        connection_token = token;
      } in
      let x : Progress =
        (on_agent_connection_token token name (clock w.readings) w.state, w.readings + 1, []) in
      let (w1, q1, el1, read, (state, rd, sound1, there, still1, fd, ptr, bounded1, others, owed)) =
        process_at-IsRead o c clock short fuel p s el w q (notice_frame token name ∷ []) x sound
          found still bounded ch fits e enough (notice_taken short el w.state w.readings pkt) in
      (
        w1,
        q1,
        read,
        second_read short token name fuel r t er (clock w.readings) w1 w.state q1 info sound1
            (others r apart ∙ waiting.0, waiting.1, waiting.2) brings state known,
      )
