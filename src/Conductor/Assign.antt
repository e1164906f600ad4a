-- ===== src/Conductor/Assign.antt =====
-- `onAgentMIP` of src/conductor/setup.cpp when both sends succeed.
use v_net.Base.{ℕ, ℤ, true, some, [], ◌∷◌, ◌≡◌, refl, nat_eq, Text}
use v_net.Base.Map.{find}
use v_net.Sockets.{is_success}
use v_net.Conductor.{
  ConnInfo, ConductorState, Chances, sends, assign_switch, tell_agent, notify_switch, push_agent,
}

pub assign_switch-success :
    (c : Chances) (p : ℕ) (fd : ℤ) (name : Text) (q : ℕ) (sw : ConnInfo) (s : ConductorState)
    → find q s.conns ≡ some sw
    → is_success (tell_agent c sw).ending ≡ true
    → is_success (notify_switch c name).ending ≡ true
    → assign_switch c p fd name q s
      ≡ some (
        push_agent c p name sw s,
        sends fd (tell_agent c sw).wire ∷ sends sw.fd (notify_switch c name).wire ∷ [],
      )
unfolding assign_switch
assign_switch-success c p fd name q sw s found told noticed = rw (found, told, noticed) refl
