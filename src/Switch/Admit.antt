-- ===== src/Switch/Admit.antt =====
-- What src/switch/setup.cpp makes of a token that it was told of.
use v_net.Base.{ℕ, ℤ, true, some, [], ◌∷◌, ◌++◌, ◌≡◌, arith, nat_eq, Text}
use v_net.Base.Map.{find, insert, erase, find-insert_self}
use v_net.Base.Pointers.{member, member-append}
use v_net.Switch.{
  ConnInfo, SwitchState, PendingToken, agent_authenticated, queue_send_accepted,
  on_agent_connection_token, on_auth_connect_to_switch,
}

-- With a token that is waiting.
auth_waiting :
    (token p : ℕ) (fd : ℤ) (s : SwitchState) (t : PendingToken) (info : ConnInfo)
    → find token s.pending_tokens ≡ some t
    → find p s.conns ≡ some info
    → on_auth_connect_to_switch p fd token s
      ≡ some (
        record s {
          conns =
              insert p (record info { role = agent_authenticated; name = t.agent_name }) s.conns;
          pending_tokens = erase token s.pending_tokens;
          agents = s.agents ++ p ∷ [];
        },
        queue_send_accepted fd ∷ [],
      )
unfolding on_auth_connect_to_switch
auth_waiting token p fd s t info known found = ground (arith, known, found)

-- The switch admits the connection that presents a token it was told of, under the name that came
-- with the token.
pub admit :
    (token : ℕ) (name : Text) (now p : ℕ) (fd : ℤ) (s : SwitchState) (info : ConnInfo)
    → find p s.conns ≡ some info
    → (s' : SwitchState) × (on_auth_connect_to_switch p fd token
          (on_agent_connection_token token name now s)
        ≡ some (s', queue_send_accepted fd ∷ []))
      × (find p s'.conns ≡ some (record info { role = agent_authenticated; name = name }))
      × (member p s'.agents ≡ true)
unfolding on_agent_connection_token
admit token name now p fd s info found =
    let t : PendingToken = record { agent_name = name; created = now } in
    let after : ConnInfo = record info { role = agent_authenticated; name = name } in
    let told = record s { pending_tokens = insert token t s.pending_tokens } in
    (
      record told {
        conns = insert p after s.conns;
        pending_tokens = erase token told.pending_tokens;
        agents = s.agents ++ p ∷ [];
      },
      auth_waiting token p fd told t info (find-insert_self token t s.pending_tokens) found,
      find-insert_self p after s.conns,
      ground (arith, member-append p p s.agents),
    )
