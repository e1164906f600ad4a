-- ===== src/Conductor/Register.antt =====
-- `onSwitchMIP` of src/conductor/setup.cpp: the switches that can be picked afterwards.
use v_net.Base.{
  ℕ, ℤ, Option, none, some, List, [], ◌∷◌, ◌++◌, ◌≡◌, ◌+◌, refl, arith, true, length, nat_eq,
  text_eq, Text, ◌%◌, ◌^◌,
}
use v_net.Base.Map.{find, insert, find-insert}
use v_net.Base.Pointers.{member, member-append}
use v_net.Protocol.Mip.{PacketSwitchMip}
use v_net.Conductor.{ConductorState, ConnInfo, on_switch_mip, is_reachable, internet, switch_conn}
use v_net.Conductor.Pick.{reaches, HasLiveSwitches}

length-snoc : (xs : List ℕ) (x : ℕ) → length (xs ++ x ∷ []) ≡ length xs + 1
length-snoc [] x = refl
length-snoc (y ∷ xs) x = ground (arith, length-snoc xs x)

reachable_anyhow : (net : Text) (sw : ConnInfo) → sw.network ≡ internet → is_reachable net sw ≡ true
unfolding is_reachable
reachable_anyhow net sw e = ground (arith, text_eq.same_iff sw.network internet)

-- The `ConnInfo` of a connection that has registered as a switch.
abbrev pub known : ConnInfo → ℤ → PacketSwitchMip → ℕ → Option ℕ → ConnInfo
known info fd pkt now_ms peer = record info {
  role = switch_conn;
  name = pkt.name;
  auth_key = pkt.auth_key;
  network = pkt.network;
  sw_port = pkt.port % 2 ^ 16;
  fd = fd;
  connected_at_ms = now_ms;
  sw_ipv4 = elim peer [ none ↦ info.sw_ipv4 | some ipv4 ↦ ipv4 ];
}

-- The conductor lists a switch that registers for the whole internet, keeps its switches live, and
-- every agent network reaches the new one.
pub on_switch_mip-lists :
    (p : ℕ) (fd : ℤ) (pkt : PacketSwitchMip) (now_ms : ℕ) (peer : Option ℕ) (s : ConductorState)
    (info : ConnInfo)
    → pkt.network ≡ internet
    → HasLiveSwitches s
    → find p s.conns ≡ some info
    → (s' : ConductorState) × (on_switch_mip p fd pkt now_ms peer s ≡ some s')
      × HasLiveSwitches s'
      × (member p s'.switches ≡ true)
      × ((net : Text) → reaches net s' p ≡ true)
      × (length s'.switches ≡ length s.switches + 1)
      × (s'.rr_index ≡ s.rr_index)
      × (find p s'.conns ≡ some (known info fd pkt now_ms peer))
unfolding on_switch_mip reaches HasLiveSwitches
on_switch_mip-lists p fd pkt now_ms peer s info open_to_all live found =
    let sw = known info fd pkt now_ms peer in
    (
      record s { conns = insert p sw s.conns; switches = s.switches ++ p ∷ [] },
      rw found refl,
      (λ q m gone.
          ground
            (arith, live q, m, gone, member-append q p s.switches, find-insert p q sw s.conns)),
      ground (arith, member-append p p s.switches),
      (λ net. ground (arith, find-insert p p sw s.conns, reachable_anyhow net sw open_to_all)),
      length-snoc s.switches p,
      refl,
      ground (arith, find-insert p p sw s.conns),
    )
