-- ===== src/NetQueue/Tests.antt =====
-- A socket element, frames in chunks, and writes.
use v_net.NetQueue.Transfer.{send_all, frames, send_all_delivers}
use v_net.Host.{big_host, ByteOrder, little_host}
use v_net.Protocol.Header.{header_bytes, new_header, header_at, PacketHeader, get_payload_size}
use v_net.Protocol.Header.Wire.{wire_header}
use v_net.NetQueue.Element.{NetworkElement, sck_header, SocketData, TunData}
use v_net.NetQueue.Kernel.{Incoming, chunk, hang_up}
use v_net.NetQueue.Process.{process, finished, unfinished, faulted, Loop}
use v_net.NetQueue.Process.Faults.{process_spins, process_overflows, in_the_payload}
use v_net.NetQueue.Process.Frames.{Frame, quiet, deliver, stream, encode, IsChunks, Fits}
use v_net.NetQueue.Process.Frames.Rounds.{loop}
use v_net.NetQueue.Process.Frames.Delivery.{process_delivers}
use v_net.NetQueue.Write.{Outgoing, takes, blocks, send, send_message, flush_write_buffer}
use v_net.NetQueue.Write.Order.{pending, IsBounded}
use v_net.NetQueue.Write.Messages.{Call, sends, flushes, given, make_all, make_all-order}
use v_net.Base.{
  zero, length, suc, ℕ, pos, some, List, [], ◌∷◌, ◌++◌, ◌≡◌, refl, arith, true, nat_eq,
}

abbrev element : NetworkElement
element = record {
  state = sck_header;
  fd = pos 4;
  ptr = 1;
  net_buffer = [];
  write_buffer = [];
  write_buffer_offset = 0;
}

-- A handler that keeps the packet types it sees, latest first.
abbrev note : List ℕ → SocketData → List ℕ
note w d = d.packet_type ∷ w

abbrev ignore : List ℕ → TunData → List ℕ
ignore w d = w

abbrev two_frames : List Frame
two_frames =
    record { packet_type = 0; payload = [] } ∷ record { packet_type = 6; payload = 9 ∷ [] } ∷ []

abbrev two_chunks : List Incoming
two_chunks = chunk (0 ∷ 0 ∷ 0 ∷ []) ∷ chunk (0 ∷ 0 ∷ 0 ∷ 0 ∷ 0 ∷ 0 ∷ 1 ∷ 0 ∷ 6 ∷ 9 ∷ []) ∷ []

two_chunks-stream : stream two_chunks ≡ encode two_frames
unfolding encode v_net.NetQueue.Process.Frames.encode_frame wire_header v_net.Host.store32
    v_net.Host.store16
two_chunks-stream = refl

process_delivers_example :
    process little_host
      (quiet note ignore)
      60
      (loop little_host note ignore element sck_header [] two_chunks [])
    ≡ finished
        (loop little_host note ignore element sck_header [] [] (deliver note element [] two_frames))
process_delivers_example =
    process_delivers little_host note ignore element 60 two_chunks [] two_frames tt
      ((omega arith, omega arith), ((omega arith, omega arith), tt)) two_chunks-stream (omega arith)

-- The header of a payload of 5 bytes, and of one of 70000.
abbrev five : PacketHeader
five = record { payload_size = 83886080; packet_type = 0 }

abbrev five_bytes : List ℕ
five_bytes = 0 ∷ 0 ∷ 0 ∷ 5 ∷ 0 ∷ 0 ∷ []

five_header : header_at little_host five_bytes ≡ some five
unfolding header_at v_net.Host.load32 v_net.Host.load16
five_header = refl

five_size : get_payload_size little_host five ≡ 5
unfolding get_payload_size
five_size = refl

process_spins_example :
    process little_host (quiet note ignore) 9 (
      in_the_payload little_host
        (quiet note ignore)
        element
        five_bytes
        five
        five_header
        (hang_up ∷ [])
        [])
    ≡ unfinished (
        in_the_payload little_host
          (quiet note ignore)
          element
          five_bytes
          five
          five_header
          (hang_up ∷ [])
          [])
process_spins_example =
    process_spins little_host (quiet note ignore) element five_bytes five five_header 9 [] []
      (omega (arith, five_size)) (omega arith)

zeros : ℕ → List ℕ
zeros zero = []
zeros (suc n) = 0 ∷ zeros n

length-zeros : (n : ℕ) → length (zeros n) ≡ n
unfolding zeros
length-zeros zero = refl
length-zeros (suc n) = omega (arith, length-zeros n)

abbrev huge : PacketHeader
huge = record { payload_size = 1880162560; packet_type = 0 }

abbrev huge_bytes : List ℕ
huge_bytes = 0 ∷ 1 ∷ 17 ∷ 112 ∷ 0 ∷ 0 ∷ []

huge_header : header_at little_host huge_bytes ≡ some huge
unfolding header_at v_net.Host.load32 v_net.Host.load16
huge_header = refl

huge_size : get_payload_size little_host huge ≡ 70000
unfolding get_payload_size
huge_size = refl

process_overflows_example :
    process little_host (quiet note ignore) 1 (
      in_the_payload little_host
        (quiet note ignore)
        element
        huge_bytes
        huge
        huge_header
        (chunk (0 ∷ zeros 69999) ∷ [])
        [])
    ≡ faulted
process_overflows_example =
    process_overflows little_host (quiet note ignore) element huge_bytes huge huge_header 0 0
      (zeros 69999) [] [] (omega (arith, huge_size)) (omega (arith, huge_size, length-zeros 69999))

element-IsBounded : IsBounded element
unfolding IsBounded
element-IsBounded = (omega arith, omega arith)

-- Two bytes are taken, the third has to wait.
abbrev slow : List Outgoing
slow = takes 2 ∷ blocks ∷ []

slow_ok : (send (7 ∷ 8 ∷ 9 ∷ []) element slow).ok ≡ true
unfolding send
slow_ok = refl

message_ok : (send_message little_host 6 (some (9 ∷ [])) element (takes 4 ∷ [])).ok ≡ true
unfolding send_message header_bytes v_net.Host.store32 v_net.Host.store16
message_ok = refl

abbrev some_calls : List Call
some_calls = sends (7 ∷ 8 ∷ 9 ∷ []) slow ∷ sends (1 ∷ []) [] ∷ flushes (takes 5 ∷ []) ∷ []

all_made : make_all some_calls element ≡ some (7 ∷ 8 ∷ 9 ∷ 1 ∷ [], element)
unfolding make_all send flush_write_buffer
all_made = refl

make_all-order_example :
    ((7 ∷ 8 ∷ 9 ∷ 1 ∷ []) ++ pending element ≡ pending element ++ given some_calls)
    × IsBounded element
make_all-order_example =
    make_all-order some_calls element element (7 ∷ 8 ∷ 9 ∷ 1 ∷ []) element-IsBounded all_made

-- The two frames, the second one with a `write` that takes two bytes at first.
abbrev two_messages : List (Frame × List Outgoing)
two_messages =
    (record { packet_type = 0; payload = [] }, takes 100 ∷ [])
    ∷ (record { packet_type = 6; payload = 9 ∷ [] }, takes 2 ∷ takes 9 ∷ takes 9 ∷ [])
    ∷ []

abbrev two_messages_wire : List ℕ
two_messages_wire = 0 ∷ 0 ∷ 0 ∷ 0 ∷ 0 ∷ 0 ∷ 0 ∷ 0 ∷ 0 ∷ 1 ∷ 0 ∷ 6 ∷ 9 ∷ []

two_messages_sent : send_all big_host two_messages element ≡ some (two_messages_wire, element)
unfolding send_all send_message header_bytes v_net.Host.store32 v_net.Host.store16 new_header
two_messages_sent = refl

two_messages-Fits : Fits (frames two_messages)
unfolding frames
two_messages-Fits = ((omega arith, omega arith), ((omega arith, omega arith), tt))

send_all_delivers_example :
    process little_host
      (quiet note ignore)
      60
      (loop little_host note ignore element sck_header [] two_chunks [])
    ≡ finished (
        loop little_host note ignore element sck_header [] []
          (deliver note element [] (frames two_messages)))
send_all_delivers_example =
    send_all_delivers big_host little_host note ignore two_messages element element element
      two_messages_wire 60 two_chunks [] element-IsBounded refl two_messages-Fits two_messages_sent
      refl tt refl (omega arith)
