-- ===== src/Agent/Join.antt =====
-- The sockets that the agent of src/agent/setup.cpp holds when it has joined, or given up.
use v_net.Base.{ℕ, ℤ, [], ◌∷◌, ◌≡◌, refl, int_eq}
use v_net.Protocol.Mip.{PacketConnectToSwitch}
use v_net.Sockets.{closes, sends, read_protobuf_packet}
use v_net.Protocol.Header.{connection_accepted, connect_to_switch}
use v_net.Sockets.Connect.{exits, enters, if_sent}
use v_net.Sockets.Held.{
  Holds, held, before-Holds, if_sent-Holds, if_read-Holds, connect-Holds, close_one-first,
}
use v_net.Agent.{
  send_auth, send_mip, if_sent, sw_cfg, Surroundings, exits, enters, connect_with_retry,
  await_acceptance, authenticate, reach_switch, await_assignment, introduce, join,
}

module _ (e : Surroundings) (fuel : ℕ) where
  close_both : (a b : ℤ) → held (b ∷ a ∷ []) (closes b ∷ closes a ∷ []) ≡ []
  unfolding held
  close_both a b = rw (close_one-first b (a ∷ [])) (close_one-first a [])

  close_sole : (a : ℤ) → held (a ∷ []) (closes a ∷ []) ≡ []
  unfolding held
  close_sole a = close_one-first a []

  await_acceptance-Holds :
      (cdt_sock sw_sock : ℤ)
      → Holds (sw_sock ∷ cdt_sock ∷ []) (await_acceptance e fuel cdt_sock sw_sock)
  unfolding await_acceptance Holds held
  await_acceptance-Holds cdt_sock sw_sock =
      if_read-Holds (sw_sock ∷ cdt_sock ∷ [])
        (read_protobuf_packet e.order e.coders.connection_accepted connection_accepted fuel
          e.from_switch)
        (closes sw_sock ∷ closes cdt_sock ∷ []) (λ ack. ([], enters cdt_sock sw_sock))
        (close_both cdt_sock sw_sock) (λ ack. refl)

  authenticate-Holds :
      (a : PacketConnectToSwitch) (cdt_sock sw_sock : ℤ)
      → Holds (sw_sock ∷ cdt_sock ∷ []) (authenticate e fuel cdt_sock sw_sock a)
  unfolding authenticate held
  authenticate-Holds a cdt_sock sw_sock =
      let socks = sw_sock ∷ cdt_sock ∷ [] in
      let cleanup = closes sw_sock ∷ closes cdt_sock ∷ [] in
      let next = await_acceptance e fuel cdt_sock sw_sock in
      before-Holds socks (sends sw_sock (send_auth e fuel a).wire ∷ [])
        (if_sent (send_auth e fuel a).ending cleanup next)
        (if_sent-Holds socks (send_auth e fuel a).ending cleanup next (close_both cdt_sock sw_sock)
          (await_acceptance-Holds cdt_sock sw_sock))

  await_assignment-Holds : (cdt_sock : ℤ) → Holds (cdt_sock ∷ []) (await_assignment e fuel cdt_sock)
  unfolding await_assignment reach_switch connect_with_retry
  await_assignment-Holds cdt_sock =
      if_read-Holds (cdt_sock ∷ [])
        (read_protobuf_packet e.order e.coders.connect_to_switch connect_to_switch fuel
          e.from_conductor)
        (closes cdt_sock ∷ []) (reach_switch e fuel cdt_sock) (close_sole cdt_sock)
        λ a.
          connect-Holds (cdt_sock ∷ []) (e.connecting (sw_cfg e fuel a)) 1 20
            (closes cdt_sock ∷ [], exits) (λ sw_sock. authenticate e fuel cdt_sock sw_sock a)
            (unfold Holds in close_sole cdt_sock) (authenticate-Holds a cdt_sock)

  introduce-Holds : (cdt_sock : ℤ) → Holds (cdt_sock ∷ []) (introduce e fuel cdt_sock)
  unfolding introduce held
  introduce-Holds cdt_sock =
      let next = await_assignment e fuel cdt_sock in
      before-Holds (cdt_sock ∷ []) (sends cdt_sock (send_mip e fuel).wire ∷ [])
        (if_sent (send_mip e fuel).ending (closes cdt_sock ∷ []) next)
        (if_sent-Holds (cdt_sock ∷ []) (send_mip e fuel).ending (closes cdt_sock ∷ []) next
          (close_sole cdt_sock) (await_assignment-Holds cdt_sock))

  -- Whatever the peers and the system do: an agent that gives up has closed every socket that it
  -- opened, and one that enters its event loop holds exactly the conductor's and the switch's.
  pub join-Holds : Holds [] (join e fuel)
  unfolding join held Holds connect_with_retry
  join-Holds =
      connect-Holds [] (e.connecting e.conductor_cfg) 1 20 ([], exits) (introduce e fuel) refl
        introduce-Holds
