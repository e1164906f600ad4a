-- ===== src/Sockets.antt =====
-- src/common/socket_utils.cpp: whole packets over one socket. What `read` and `write` do is a
-- script of the environment's choice; each turn of a loop uses up one entry of it, and a call
-- whose script has ended is still waiting.
pub mod Stream
pub mod Deliver
pub mod Connect
pub mod Held
pub mod Tests
use v_net.Host.{ByteOrder}
use v_net.Protocol.Header.{
  PacketType, PacketHeader, new_header, header_bytes, header_at, get_payload_size, get_packet_type,
  heartbeat, packet_header_size,
}
use v_net.Protocol.Dispatch.{Coder}
use v_net.NetQueue.Kernel.{Incoming, chunk, would_block, failure, signal, hang_up, put_back}
use v_net.NetQueue.Write.{Outgoing, takes, blocks, interrupted, breaks}
use v_net.Base.{
  ℤ, minus_one, is_neg, ℕ, zero, suc, List, [], ◌∷◌, ◌++◌, Bool, true, false, length, take, drop,
  leb, if◌then◌else◌, ◌-◌, Option, none, some, ◌==◌, ◌%◌, ◌^◌, not, nat_eq,
}

-- What a program does to its sockets.
pub data Deed : Type 0 where
  opens closes : ℤ → Deed
  sends : ℤ → List ℕ → Deed

-- What `getaddrinfo`, `socket` and `connect` return.
pub record Connecting : Type 0 where
  pub resolves : Bool
  pub socket : ℤ
  pub connects : Bool

unfoldable pub connect_to : Connecting → List Deed × ℤ
connect_to c =
    if not c.resolves
    then ([], minus_one)
    else if is_neg c.socket
    then ([], minus_one)
    else if not c.connects
    then (opens c.socket ∷ closes c.socket ∷ [], minus_one)
    else (opens c.socket ∷ [], c.socket)

-- How a call ends: it returns true or false, or it waits for the other side.
pub data Ending : Type 0 where
  succeeds fails waits : Ending

-- What the call returned, where a call that waits has not returned true yet.
abbrev pub is_success : Ending → Bool
is_success succeeds = true
is_success fails = false
is_success waits = false

pub record Written : Type 0 where
  pub ending : Ending
  pub wire : List ℕ
  pub script : List Outgoing

abbrev pub wrote : List ℕ → Written → Written
wrote bytes r = record r { wire = bytes ++ r.wire }

abbrev ends_write : Ending → List Outgoing → Written
ends_write e s = record { ending = e; wire = []; script = s }

-- On the bytes not yet written.
unfoldable pub write_n_bytes : List ℕ → List Outgoing → Written
write_n_bytes [] s = ends_write succeeds s
write_n_bytes (b ∷ bs) [] = ends_write waits []
write_n_bytes (b ∷ bs) (blocks ∷ s) = write_n_bytes (b ∷ bs) s
write_n_bytes (b ∷ bs) (interrupted ∷ s) = write_n_bytes (b ∷ bs) s
write_n_bytes (b ∷ bs) (breaks ∷ s) = ends_write fails s
write_n_bytes (b ∷ bs) (takes zero ∷ s) = ends_write fails s
write_n_bytes (b ∷ bs) (takes (suc k) ∷ s) = wrote (b ∷ take k bs) (write_n_bytes (drop k bs) s)

pub record Received : Type 0 where
  pub ending : Ending
  pub bytes : List ℕ
  pub script : List Incoming

abbrev received : List ℕ → Received → Received
received bs r = record r { bytes = bs ++ r.bytes }

abbrev pub ends_read : Ending → List ℕ → List Incoming → Received
ends_read e bs s = record { ending = e; bytes = bs; script = s }

-- On the number of bytes still missing.
unfoldable pub read_n_bytes : ℕ → List Incoming → Received
read_n_bytes zero s = ends_read succeeds [] s
read_n_bytes (suc n) [] = ends_read waits [] []
read_n_bytes (suc n) (chunk [] ∷ s) = ends_read fails [] s
read_n_bytes (suc n) (chunk (b ∷ bs) ∷ s) =
    let rest = received (b ∷ bs) (read_n_bytes (n - length bs) s) in
    if leb n (length bs) then ends_read succeeds (b ∷ take n bs) (put_back (drop n bs) s) else rest
read_n_bytes (suc n) (would_block ∷ s) = ends_read fails [] s
read_n_bytes (suc n) (failure ∷ s) = ends_read fails [] s
read_n_bytes (suc n) (signal ∷ s) = read_n_bytes (suc n) s
read_n_bytes (suc n) (hang_up ∷ s) = ends_read fails [] (hang_up ∷ s)

-- What follows a call that may end the function.
abbrev pub then_write : Written → (List Outgoing → Written) → Written
then_write r next = elim r.ending [
  | succeeds ↦ wrote r.wire (next r.script)
  | fails ↦ r
  | waits ↦ r
]

-- The message is its serialized body, if there is one.
unfoldable pub send_protobuf_packet :
    ByteOrder → PacketType → Option (List ℕ) → List Outgoing → Written
unfolding write_n_bytes
send_protobuf_packet o type none s = ends_write fails s
send_protobuf_packet o type (some body) s =
    then_write (write_n_bytes (header_bytes o (new_header o (length body % 2 ^ 32) type)) s)
      (write_n_bytes body)

pub send_heartbeat : ByteOrder → List Outgoing → Written
unfolding write_n_bytes
send_heartbeat o s = write_n_bytes (header_bytes o (new_header o 0 heartbeat)) s

-- How a read of a packet ends: with a value and the rest of the script, with false, waiting, or
-- still in its loop when the fuel is used up.
pub data Reply (A : Type 0) : Type 0 where
  gives : A → List Incoming → Reply A
  refuses : List Incoming → Reply A
  hangs : Reply A
  runs_on : Reply A

abbrev pub then_read : {A : Type 0} → Received → (List ℕ → List Incoming → Reply A) → Reply A
then_read r next = elim r.ending [
  | succeeds ↦ next r.bytes r.script
  | fails ↦ refuses r.script
  | waits ↦ hangs
]

-- `read_n_bytes(sock, &hdr, PACKET_HEADER_SIZE)`; six bytes always are a header.
unfoldable pub read_header :
    {A : Type 0} → ByteOrder → (PacketHeader → List Incoming → Reply A) → List Incoming → Reply A
unfolding read_n_bytes
read_header o next s =
    then_read (read_n_bytes packet_header_size s)
      λ bytes s'. elim (header_at o bytes) [ none ↦ runs_on | some hdr ↦ next hdr s' ]

module _ {T : Type 0} (o : ByteOrder) (c : Coder T) (expected_type : PacketType) where
  -- What follows the loop over heartbeats.
  unfoldable pub read_body : PacketHeader → List Incoming → Reply T
  unfolding read_n_bytes
  read_body hdr s =
      if not (get_packet_type o hdr == expected_type)
      then refuses s
      else if get_payload_size o hdr == 0
      then gives c.cleared s
      else then_read (read_n_bytes (get_payload_size o hdr) s)
          λ bytes s'. elim (c.parse bytes) [ none ↦ refuses s' | some msg ↦ gives msg s' ]

  -- One turn of the loop over heartbeats, with the loop that goes on.
  unfoldable pub skip_heartbeat :
      (PacketHeader → List Incoming → Reply T) → PacketHeader → List Incoming → Reply T
  unfolding read_body read_header
  skip_heartbeat again hdr s =
      if get_packet_type o hdr == heartbeat
      then then_read (read_n_bytes (get_payload_size o hdr) s) (λ bytes s'. read_header o again s')
      else read_body hdr s

  -- On fuel.
  unfoldable pub skip_heartbeats : ℕ → PacketHeader → List Incoming → Reply T
  unfolding skip_heartbeat
  skip_heartbeats zero hdr s = runs_on
  skip_heartbeats (suc fuel) hdr s = skip_heartbeat (skip_heartbeats fuel) hdr s

  unfoldable pub read_protobuf_packet : ℕ → List Incoming → Reply T
  unfolding skip_heartbeats
  read_protobuf_packet fuel s = read_header o (skip_heartbeats fuel) s

pub read_raw_packet : ByteOrder → List Incoming → Reply (PacketType × List ℕ)
unfolding read_header
read_raw_packet o = read_header o λ hdr s.
    then_read (read_n_bytes (get_payload_size o hdr) s)
      λ bytes s'. gives (get_packet_type o hdr, bytes) s'
