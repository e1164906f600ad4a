-- ===== src/Conductor/Program/Tests.antt =====
-- A conductor with one switch, and one without, and an agent that introduces itself.
use v_net.Base.{
  ◌+◌, ℕ, ℤ, pos, true, Option, none, some, List, [], ◌∷◌, ◌++◌, ◌≡◌, refl, arith, nat_eq, int_eq,
  subst, ◌<◌, length, ◌*◌, ◌≤◌, inl, inr,
}
use v_net.Base.Map.{find}
use v_net.Base.Pointers.{member}
use v_net.Host.{little_host}
use v_net.Protocol.Header.{PacketHeader, header_at}
use v_net.Protocol.Mip.{mip_messages, PacketAgentMip}
use v_net.Protocol.Dispatch.{calls_agent_mip, on_socket_ready}
use v_net.Protocol.Dispatch.Roundtrip.{packet_for}
use v_net.Protocol.Samples.{sample_coders}
use v_net.NetQueue.Element.{NetworkElement, sck_header, sck_ready}
use v_net.NetQueue.Kernel.{Incoming, chunk}
use v_net.NetQueue.Process.Frames.{Fits, stream, encode}
use v_net.NetQueue.Process.Relate.{data_for}
use v_net.NetQueue.Write.{takes}
use v_net.NetQueue.Queue.{Queue}
use v_net.NetQueue.Queue.Sound.{IsSound}
use v_net.NetQueue.Queue.Turn.{process_at, passes}
use v_net.NetQueue.Queue.Turn
use v_net.Sockets.{is_success}
use v_net.Conductor.{ConnInfo, Chances, unknown, switch_conn, notify_switch}
use v_net.Conductor.Pick.{HasLiveSwitches, IsChoice}
use v_net.Conductor.Program.{World, chances_of, conductor_handler}
use v_net.Conductor.Program.Assigns.{IsSendable, with_agent, agent_mip_frame-assigns}
use v_net.Conductor.Announce.{assigned_frame, announced_frame}
use v_net.Conductor.Program.Faults.{no_switch-faults}

abbrev agent : ConnInfo
agent = record {
  role = unknown;
  name = [];
  auth_key = [];
  network = [];
  sw_port = 0;
  sw_ipv4 = 0;
  fd = pos 5;
  last_hb_sent = 0;
  connected_at_ms = 0;
}

abbrev sw : ConnInfo
sw = record agent { role = switch_conn; name = b's' ∷ []; sw_port = 6000; sw_ipv4 = 9; fd = pos 4 }

abbrev world : World
world = record {
  state = record {
    conns = (10, sw) ∷ (20, agent) ∷ [];
    switches = 10 ∷ [];
    agents = [];
    pending_tokens = [];
    rr_index = 0;
  };
  handled = 0;
  writes = [];
  sent = [];
}

abbrev chances : ℕ → Chances
chances n = record {
  order = little_host;
  coders = sample_coders;
  now_ms = 10;
  later_ms = 11;
  token = 77 + n;
  to_agent = takes 99 ∷ takes 99 ∷ [];
  to_switch = takes 99 ∷ takes 99 ∷ [];
}

abbrev peer : ℤ → Option ℕ
peer fd = none

abbrev connection : NetworkElement
connection = record {
  state = sck_header;
  fd = pos 5;
  ptr = 20;
  net_buffer = [];
  write_buffer = [];
  write_buffer_offset = 0;
}

abbrev queue : Queue
queue = record { elements = (2, connection) ∷ []; fd_to_network_element = (pos 5, 2) ∷ [] }

abbrev pkt : PacketAgentMip
pkt = record { name = b'a' ∷ []; auth_key = []; network = b'n' ∷ [] }

abbrev bytes : List Incoming
bytes = chunk (0 ∷ 0 ∷ 0 ∷ []) ∷ chunk (4 ∷ 0 ∷ 2 ∷ 1 ∷ 0 ∷ 97 ∷ 110 ∷ []) ∷ []

found : find 2 queue.elements ≡ some connection
unfolding find
found = refl

known : find 20 world.state.conns ≡ some agent
unfolding find
known = refl

arrives : stream bytes ≡ encode (packet_for (mip_messages sample_coders) (calls_agent_mip pkt) ∷ [])
unfolding packet_for encode v_net.NetQueue.Process.Frames.encode_frame
    v_net.Protocol.Header.Wire.wire_header v_net.Host.store32 v_net.Host.store16
arrives = refl

fits : Fits (packet_for (mip_messages sample_coders) (calls_agent_mip pkt) ∷ [])
unfolding packet_for
fits = ((omega arith, omega arith), tt)

live : HasLiveSwitches world.state
unfolding HasLiveSwitches member find
live p m gone = ground (arith, m, gone)

told_sw : IsSendable (chances_of sample_coders chances peer world) sw
unfolding v_net.Sockets.send_protobuf_packet v_net.Protocol.Header.header_bytes v_net.Host.store32
    v_net.Host.store16
told_sw = (omega arith, refl)

told :
    (r : ℕ) (sw' : ConnInfo)
    → member r world.state.switches ≡ true
    → find r
        (with_agent
          (chances_of sample_coders chances peer world)
          20
          (pos 5)
          pkt
          agent
          world.state).conns
      ≡ some sw'
    → IsSendable (chances_of sample_coders chances peer world) sw'
unfolding member find v_net.Base.Map.insert
told r sw' m there =
    let same : sw ≡ sw' = ground (arith, m, there) in
    subst (λ x. IsSendable (chances_of sample_coders chances peer world) x) same told_sw

noticed :
    is_success (notify_switch (chances_of sample_coders chances peer world) pkt.name).ending ≡ true
unfolding v_net.Sockets.send_protobuf_packet v_net.Protocol.Header.header_bytes v_net.Host.store32
    v_net.Host.store16
noticed = refl

agent_mip_frame-assigns_example :
    (x : World) × (r : ℕ) × (sw' : ConnInfo) × (process_at little_host
        (conductor_handler sample_coders chances peer)
        60
        2
        bytes
        connection
        world
        queue
      ≡ passes (x, queue))
    × IsChoice pkt.network
        (with_agent (chances_of sample_coders chances peer world) 20 (pos 5) pkt agent world.state)
        r
    × (find r
          (with_agent
            (chances_of sample_coders chances peer world)
            20
            (pos 5)
            pkt
            agent
            world.state).conns
        ≡ some sw')
    × (x.sent
        ≡ world.sent
          ++ (pos 5, assigned_frame sample_coders sw' 77)
            ∷ (sw'.fd, announced_frame sample_coders (b'a' ∷ []) 77)
            ∷ [])
    × (member 20 x.state.agents ≡ true)
    × (x.state.pending_tokens
        ≡ []
          ++ record {
            agent_name = b'a' ∷ [];
            switch_name = sw'.name;
            created_at_ms = 11;
            token = 77;
          }
            ∷ [])
agent_mip_frame-assigns_example =
    agent_mip_frame-assigns little_host sample_coders chances peer 60 2 bytes connection world queue
      pkt agent found refl tt fits arrives (omega arith) known live (omega arith) (omega arith) told
      (omega arith) noticed

-- The same agent when no switch has come yet.
abbrev alone : World
alone = record world {
  state = record {
    conns = (20, agent) ∷ [];
    switches = [];
    agents = [];
    pending_tokens = [];
    rr_index = 0;
  };
}

abbrev introducing : NetworkElement
introducing = record connection {
  state = sck_ready;
  net_buffer = 0 ∷ 0 ∷ 0 ∷ 4 ∷ 0 ∷ 2 ∷ 1 ∷ 0 ∷ 97 ∷ 110 ∷ [];
}

abbrev introduced : Queue
introduced = record queue { elements = (2, introducing) ∷ [] }

introduced-IsSound : IsSound introduced
unfolding IsSound find v_net.Base.Heap.field_at
introduced-IsSound = ((λ fd p e. ground (arith, e)), (λ fd p e. ground (arith, e)), (refl, tt))

introducing_found : find 2 introduced.elements ≡ some introducing
unfolding find
introducing_found = refl

abbrev mip_header : PacketHeader
mip_header = record { payload_size = 67108864; packet_type = 512 }

header_found : header_at little_host introducing.net_buffer ≡ some mip_header
unfolding header_at v_net.Host.load32 v_net.Host.load16
header_found = refl

parsed :
    on_socket_ready (mip_messages sample_coders) (data_for little_host introducing mip_header)
    ≡ some (calls_agent_mip pkt)
unfolding on_socket_ready v_net.Protocol.Header.get_packet_type
    v_net.Protocol.Header.get_payload_size
parsed = refl

alone_known : find 20 alone.state.conns ≡ some agent
unfolding find
alone_known = refl

no_switch-faults_example :
    process_at little_host
      (conductor_handler sample_coders chances peer)
      3
      2
      []
      introducing
      alone
      introduced
    ≡ Turn.faults
no_switch-faults_example =
    no_switch-faults little_host sample_coders chances peer 2 2 [] introducing alone introduced
      mip_header pkt agent introduced-IsSound introducing_found refl header_found parsed alone_known
      refl
