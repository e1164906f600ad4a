-- ===== src/Sockets/Connect.antt =====
-- What src/agent/setup.cpp and src/switch/setup.cpp do alike before their event loops: they try to
-- connect again and again, and give up when a packet is not sent or not read.
use v_net.Base.{ℕ, zero, suc, ℤ, minus_one, is_neg, List, [], ◌++◌, not, if◌then◌else◌, ◌+◌, Text}
use v_net.Sockets.{
  Deed, Connecting, connect_to, Ending, succeeds, fails, waits, Reply, gives, refuses, hangs,
  runs_on,
}

pub record MachineConfig : Type 0 where
  pub ip : Text
  pub port : ℕ

-- Where the process stands: it returned 1, it waits for a peer, it still reads heartbeats when the
-- fuel is used up, or it enters the event loop with both sockets.
pub data Stage : Type 0 where
  exits waits_on_peer still_reads : Stage
  enters : ℤ → ℤ → Stage

-- The deeds before the others.
abbrev pub before {ℓ} : {A : Type ℓ} → List Deed → List Deed × A → List Deed × A
before deeds (more, a) = (deeds ++ more, a)

-- From an attempt on, over as many as the number says.
unfoldable pub connect_from : (ℕ → Connecting) → ℕ → ℕ → List Deed × ℤ
connect_from connecting attempt zero = ([], minus_one)
connect_from connecting attempt (suc n) =
    let rest = connect_from connecting (attempt + 1) n in
    let (deeds, fd) = connect_to (connecting attempt) in
    if not (is_neg fd) then (deeds, fd) else before deeds rest

-- `if (!send_protobuf_packet(...)) { close(...); return 1; }` and what follows.
unfoldable pub if_sent : Ending → List Deed → List Deed × Stage → List Deed × Stage
if_sent succeeds cleanup next = next
if_sent fails cleanup next = (cleanup, exits)
if_sent waits cleanup next = ([], waits_on_peer)

-- `if (!read_protobuf_packet(...)) { close(...); return 1; }` and what follows.
unfoldable pub if_read :
    {A : Type 0} → Reply A → List Deed → (A → List Deed × Stage) → List Deed × Stage
if_read (gives a s) cleanup next = next a
if_read (refuses s) cleanup next = (cleanup, exits)
if_read hangs cleanup next = ([], waits_on_peer)
if_read runs_on cleanup next = ([], still_reads)
