-- ===== src/NetQueue/Write.antt =====
-- The sending side of src/netqueue/netqueue.cpp: `send`, the overload that frames a message,
-- `send_heartbeat` and `flush_write_buffer`. What `write` does is a script of the environment's
-- choice; each turn of a loop uses up one entry of it.
pub mod Order
pub mod Messages
pub mod Descriptor
use v_net.Host.{ByteOrder}
use v_net.Protocol.Header.{PacketType, new_header, header_bytes, heartbeat}
use v_net.NetQueue.Element.{NetworkElement, sck_error, write_buffer_max}
use v_net.Base.{
  nat_eq, ◌^◌, ◌%◌, ◌==◌, ℕ, List, [], ◌∷◌, ◌++◌, Bool, true, false, length, take, drop, ltb,
  if◌then◌else◌, ◌+◌, ◌-◌, min, Option, none, some, zero, suc, Text,
}

-- One call of `write`: it takes at most so many bytes, is interrupted, would block, or fails.
pub data Outgoing : Type 0 where
  takes : ℕ → Outgoing
  interrupted blocks breaks : Outgoing

-- What a call of `send` or `flush_write_buffer` returns, leaves and has done: the bytes that
-- `write` took, and the last `epoll_ctl`, if any: whether it asks for EPOLLOUT.
pub record Sent : Type 0 where
  pub ok : Bool
  pub element : NetworkElement
  pub wire : List ℕ
  pub polls_out : Option Bool
  pub script : List Outgoing

-- A call that returns without a further `write` or `epoll_ctl`.
abbrev returns : Bool → NetworkElement → List Outgoing → Sent
returns ok el s = record { ok = ok; element = el; wire = []; polls_out = none; script = s }

-- Bytes that were written before what follows.
abbrev wrote : List ℕ → Sent → Sent
wrote bytes r = record r { wire = bytes ++ r.wire }

-- "Buffer the remainder"
buffer_rest : List ℕ → NetworkElement → List Outgoing → Sent
buffer_rest rest el s =
    if ltb write_buffer_max (length rest)
    then returns false (record el { state = sck_error }) s
    else record (returns true (record el { write_buffer = rest; write_buffer_offset = 0 }) s) {
      polls_out = some true;
    }

-- `while (total < n)`, on the bytes not yet written.
send_rest : List ℕ → NetworkElement → List Outgoing → Sent
unfolding buffer_rest
send_rest [] el s = returns true el s
send_rest (b ∷ bs) el [] = buffer_rest (b ∷ bs) el []
send_rest (b ∷ bs) el (blocks ∷ s) = buffer_rest (b ∷ bs) el s
send_rest (b ∷ bs) el (interrupted ∷ s) = send_rest (b ∷ bs) el s
send_rest (b ∷ bs) el (breaks ∷ s) = returns false el s
send_rest (b ∷ bs) el (takes zero ∷ s) = returns false el s
send_rest (b ∷ bs) el (takes (suc k) ∷ s) = wrote (b ∷ take k bs) (send_rest (drop k bs) el s)

-- `send`, on an element that the queue has.
unfoldable pub send : List ℕ → NetworkElement → List Outgoing → Sent
unfolding send_rest
send bytes el s = elim el.write_buffer [
  | [] ↦ send_rest bytes el s
  | b ∷ bs ↦
      let already_buffered = length el.write_buffer - el.write_buffer_offset in
      if ltb write_buffer_max (already_buffered + length bytes)
      then returns false (record el { state = sck_error }) s
      else returns true (record el { write_buffer = el.write_buffer ++ bytes }) s
]

-- Two calls, one after the other.
abbrev after : Sent → Sent → Sent
after first second = record second {
  wire = first.wire ++ second.wire;
  polls_out = elim second.polls_out [ none ↦ first.polls_out | some asked ↦ some asked ];
}

-- The body of a message, which is not sent when it is empty.
unfoldable pub send_body : List ℕ → Sent → Sent
unfolding send
send_body [] first = first
send_body (b ∷ bs) first = after first (send (b ∷ bs) first.element first.script)

-- `send` of a message, which is its serialized body, if there is one.
unfoldable pub send_message :
    ByteOrder → PacketType → Option (List ℕ) → NetworkElement → List Outgoing → Sent
unfolding send_body
send_message o type none el s = returns false el s
send_message o type (some body) el s =
    let first = send (header_bytes o (new_header o (length body % 2 ^ 32) type)) el s in
    if first.ok then send_body body first else first

pub send_heartbeat : ByteOrder → NetworkElement → List Outgoing → Sent
send_heartbeat o el s = send (header_bytes o (new_header o 0 heartbeat)) el s

-- The buffer is drained.
abbrev drained : NetworkElement → List Outgoing → Sent
drained el s = record (returns true (record el { write_buffer = []; write_buffer_offset = 0 }) s) {
  polls_out = some false;
}

abbrev unsent : NetworkElement → Bool
unsent el = ltb el.write_buffer_offset (length el.write_buffer)

-- One `write` that took `r` bytes moves the offset.
abbrev advance : ℕ → NetworkElement → NetworkElement
advance r el = record el { write_buffer_offset = el.write_buffer_offset + r }

unfoldable pub flush_write_buffer : NetworkElement → List Outgoing → Sent
flush_write_buffer el [] = if unsent el then returns true el [] else drained el []
flush_write_buffer el (blocks ∷ s) =
    if unsent el then returns true el s else drained el (blocks ∷ s)
flush_write_buffer el (interrupted ∷ s) =
    let rest = flush_write_buffer el s in if unsent el then rest else drained el (interrupted ∷ s)
flush_write_buffer el (breaks ∷ s) =
    if unsent el then returns false el s else drained el (breaks ∷ s)
flush_write_buffer el (takes k ∷ s) =
    let r = min k (length el.write_buffer - el.write_buffer_offset) in
    let rest =
      wrote (take r (drop el.write_buffer_offset el.write_buffer))
        (flush_write_buffer (advance r el) s) in
    if unsent el then (if r == 0 then returns false el s else rest) else drained el (takes k ∷ s)
