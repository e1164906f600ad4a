-- ===== src/NetQueue/Queue/Send.antt =====
-- The sending calls of src/netqueue/netqueue.cpp, which are given a descriptor: each looks its
-- element up in the table. A use of an element that is not live is a fault.
use v_net.Base.{
  ℕ, ℤ, Bool, false, Option, none, some, List, [], ◌∷◌, ◌++◌, ◌>>=◌, nat_eq, int_eq, length, ◌%◌,
  ◌^◌, if◌then◌else◌,
}
use v_net.Base.Map.{find, insert}
use v_net.Host.{ByteOrder}
use v_net.Protocol.Header.{PacketType, new_header, header_bytes, heartbeat}
use v_net.NetQueue.Write
use v_net.NetQueue.Write.{Outgoing, Sent}
use v_net.NetQueue.Queue.{Queue, get_network_element_from_fd}

-- What a call returns, leaves and has done: the bytes that `write` took on the descriptor, and the
-- last `epoll_ctl`, if any: whether it asks for EPOLLOUT.
pub record Transmission : Type 0 where
  pub ok : Bool
  pub queue : Queue
  pub wire : List ℕ
  pub polls_out : Option Bool
  pub script : List Outgoing

-- `if (!element) return false;`
abbrev pub refuses : Queue → List Outgoing → Transmission
refuses q s = record { ok = false; queue = q; wire = []; polls_out = none; script = s }

-- With the element at `p` as the call left it.
abbrev pub on_element : ℕ → Queue → Sent → Transmission
on_element p q r = record {
  ok = r.ok;
  queue = record q { elements = insert p r.element q.elements };
  wire = r.wire;
  polls_out = r.polls_out;
  script = r.script;
}

unfoldable pub send : ℤ → List ℕ → List Outgoing → Queue → Option Transmission
send fd bytes s q = elim (get_network_element_from_fd fd q) [
  | none ↦ some (refuses q s)
  | some p ↦ do el ← find p q.elements; some (on_element p q (Write.send bytes el s))
]

-- Two calls, one after the other.
abbrev pub after : Transmission → Transmission → Transmission
after first second = record second {
  wire = first.wire ++ second.wire;
  polls_out = elim second.polls_out [ none ↦ first.polls_out | some asked ↦ some asked ];
}

-- The body of a message, which is not sent when it is empty.
unfoldable pub send_body : ℤ → List ℕ → Transmission → Option Transmission
unfolding send
send_body fd [] first = some first
send_body fd (b ∷ bs) first = do
  second ← send fd (b ∷ bs) first.script first.queue
  some (after first second)

-- `send` of a message, which is its serialized body, if there is one.
unfoldable pub send_message :
    ByteOrder → ℤ → PacketType → Option (List ℕ) → List Outgoing → Queue → Option Transmission
unfolding send_body
send_message o fd type none s q = some (refuses q s)
send_message o fd type (some body) s q = do
  first ← send fd (header_bytes o (new_header o (length body % 2 ^ 32) type)) s q
  if first.ok then send_body fd body first else some first

unfoldable pub send_heartbeat : ByteOrder → ℤ → List Outgoing → Queue → Option Transmission
unfolding send
send_heartbeat o fd s q = send fd (header_bytes o (new_header o 0 heartbeat)) s q
