-- ===== src/BlackBox/AgentRegistry/Agree.antt =====
-- The three indices of the registry agree while no two agents share an address or a descriptor.
use v_net.Base.{
  Bool-cases, ◌==◌, if◌then◌else◌, ◌⊎◌, none, some, Option, subst, ℤ, inr, inl, int_eq, arith,
  nat_eq, ◌↔◌, ◌≢◌, some, ◌≡◌, Text, ℕ, text_eq,
}
use v_net.Base.Map.{insert, find, find-insert, find-erase}
use v_net.BlackBox.AgentRegistry.{
  empty_registry, register_agent, unregister_by_fd, AgentEntry, AgentRegistry, add_entry,
  unregister_by_name,
}
use v_net.BlackBox.AgentRegistry.Sound.{
  unregister_by_name-IsSound, unregister_by_fd_cases, apply, IsSound, Call, registers,
  unregisters_fd, unregisters_name, without, unregister_by_name_cases,
}

-- Every live entry is found under its address and under its descriptor (and under its name).
pub record Agrees (r : AgentRegistry) : Type 0 where
  pub at_ipv4 :
      (p : ℕ) (x : AgentEntry) → find p r.heap ≡ some x → find x.virtual_ipv4 r.by_ipv4 ≡ some p
  pub at_fd : (p : ℕ) (x : AgentEntry) → find p r.heap ≡ some x → find x.fd r.by_fd ≡ some p

module _ (r : AgentRegistry) (a : Agrees r) where
  without-Agrees : (p : ℕ) (x : AgentEntry) → find p r.heap ≡ some x → Agrees (without r p x)
  without-Agrees p x live = record {
    at_ipv4 = λ q y h. ground (
      arith,
      find-erase p q r.heap,
      find-erase x.virtual_ipv4 y.virtual_ipv4 r.by_ipv4,
      a.at_ipv4 p x,
      a.at_ipv4 q y,
    );
    at_fd = λ q y h. ground (
      arith,
      find-erase p q r.heap,
      find-erase x.fd y.fd r.by_fd,
      a.at_fd p x,
      a.at_fd q y,
      int_eq.same_iff x.fd y.fd,
    );
  }

  add_entry-Agrees :
      (p : ℕ) (x : AgentEntry)
      → ((q : ℕ) (y : AgentEntry)
          → find q r.heap ≡ some y
          → (y.virtual_ipv4 ≢ x.virtual_ipv4) × (y.fd ≢ x.fd))
      → Agrees (add_entry (some p) x r).0
  unfolding add_entry
  add_entry-Agrees p x apart = record {
    at_ipv4 = λ q y h. ground (
      arith,
      find-insert p q x r.heap,
      find-insert x.virtual_ipv4 y.virtual_ipv4 p r.by_ipv4,
      a.at_ipv4 q y,
      apart q y,
    );
    at_fd = λ q y h. ground (
      arith,
      find-insert p q x r.heap,
      find-insert x.fd y.fd p r.by_fd,
      a.at_fd q y,
      apart q y,
      int_eq.same_iff x.fd y.fd,
    );
  }

-- The call gives an agent no address or descriptor that an agent of another name has.
abbrev pub Unshared : Call → AgentRegistry → Type 0
Unshared (registers new_entry name ipv4 fd) r =
    (p : ℕ) (x : AgentEntry)
    → find p r.heap ≡ some x
    → x.name ≢ name
    → (x.virtual_ipv4 ≢ ipv4) × (x.fd ≢ fd)
Unshared (unregisters_fd fd) r = Unit {0}
Unshared (unregisters_name name) r = Unit {0}

-- `unregister_by_name` removes the agent of that name and touches no other.
pub unregister_by_name_exact :
    (r q : AgentRegistry) (name : Text)
    → IsSound r
    → unregister_by_name name r ≡ some q
    → (p : ℕ) (x : AgentEntry)
    → (find p q.heap ≡ some x) ↔ ((find p r.heap ≡ some x) × (x.name ≢ name))
unregister_by_name_exact r q name s done p x = elim (unregister_by_name_cases r s name) [
  | inl (e, same) ↦ let old : r ≡ q = cc in rw (← old) (ground (arith, s.named p x), λ h. h.0)
  | inr (o, y, e, live, named, less) ↦
      let old : without r o y ≡ q = cc in
      rw (← old) (
        ground (arith, find-erase o p r.heap, s.named p x, s.named o y),
        ground (arith, find-erase o p r.heap, s.named p x, s.named o y),
      )
]

-- While the indices agree, `unregister_by_fd` removes the agent of that descriptor and no other.
pub unregister_by_fd_exact :
    (r q : AgentRegistry) (fd : ℤ)
    → IsSound r
    → Agrees r
    → unregister_by_fd fd r ≡ some q
    → (p : ℕ) (x : AgentEntry) → (find p q.heap ≡ some x) ↔ ((find p r.heap ≡ some x) × (x.fd ≢ fd))
unregister_by_fd_exact r q fd s a done p x = elim (unregister_by_fd_cases r s fd) [
  | inl (e, same) ↦ let old : r ≡ q = cc in rw (← old) (ground (arith, a.at_fd p x), λ h. h.0)
  | inr (o, y, e, live, has, less) ↦
      let old : without r o y ≡ q = cc in
      rw (← old) (
        ground (arith, find-erase o p r.heap, a.at_fd p x, a.at_fd o y),
        ground (arith, find-erase o p r.heap, a.at_fd p x, a.at_fd o y),
      )
]

register_agent-Agrees :
    (r q : AgentRegistry) (new_entry : Option ℕ) (x : AgentEntry)
    → IsSound r
    → Agrees r
    → ((p : ℕ) (y : AgentEntry)
        → find p r.heap ≡ some y
        → y.name ≢ x.name
        → (y.virtual_ipv4 ≢ x.virtual_ipv4) × (y.fd ≢ x.fd))
    → unregister_by_name x.name r ≡ some q
    → Agrees q
    → Agrees (add_entry new_entry x q).0
unfolding add_entry
register_agent-Agrees r q none x s a apart done b = b
register_agent-Agrees r q (some p) x s a apart done b =
    add_entry-Agrees q b p x λ o y h.
      let old = (unregister_by_name_exact r q x.name s done o y).0 h in apart o y old.0 old.1

unregister_by_name-Agrees :
    (r q : AgentRegistry) (name : Text)
    → IsSound r
    → Agrees r
    → unregister_by_name name r ≡ some q
    → Agrees q
unregister_by_name-Agrees r q name s a done = elim (unregister_by_name_cases r s name) [
  | inl (e, same) ↦ let old : r ≡ q = cc in subst Agrees old a
  | inr (o, y, e, live, named, less) ↦
      let old : without r o y ≡ q = cc in subst Agrees old (without-Agrees r a o y live)
]

unregister_by_fd-Agrees :
    (r q : AgentRegistry) (fd : ℤ)
    → IsSound r
    → Agrees r
    → unregister_by_fd fd r ≡ some q
    → Agrees q
unregister_by_fd-Agrees r q fd s a done = elim (unregister_by_fd_cases r s fd) [
  | inl (e, same) ↦ let old : r ≡ q = cc in subst Agrees old a
  | inr (o, y, e, live, has, less) ↦
      let old : without r o y ≡ q = cc in subst Agrees old (without-Agrees r a o y live)
]

-- A call that shares no address or descriptor keeps the indices in agreement: every live entry is
-- found under its address and its descriptor.
pub apply-Agrees :
    (c : Call) (r q : AgentRegistry)
    → IsSound r
    → Agrees r
    → Unshared c r
    → apply c r ≡ some q
    → Agrees q
unfolding apply register_agent
apply-Agrees (registers new_entry name ipv4 fd) r q s a apart done =
    let x : AgentEntry = record { name = name; virtual_ipv4 = ipv4; fd = fd } in
    let (o, less, _, _, _) = unregister_by_name-IsSound r s name in
    let same : (add_entry new_entry x o).0 ≡ q = ground (arith, less) in
    subst Agrees same (
      register_agent-Agrees r o new_entry x s a apart less
        (unregister_by_name-Agrees r o name s a less))
apply-Agrees (unregisters_fd fd) r q s a apart done = unregister_by_fd-Agrees r q fd s a done
apply-Agrees (unregisters_name name) r q s a apart done =
    unregister_by_name-Agrees r q name s a done

-- After `register_agent` a live entry is the new one, or was there before under another name.
pub register_agent_exact :
    (r q : AgentRegistry) (new_entry o : Option ℕ) (name : Text) (ipv4 : ℕ) (fd : ℤ)
    → IsSound r
    → register_agent new_entry name ipv4 fd r ≡ some (q, o)
    → (p : ℕ) (x : AgentEntry) → find p q.heap ≡ some x
    → (x ≡ record { name = name; virtual_ipv4 = ipv4; fd = fd })
      ⊎ ((find p r.heap ≡ some x) × (x.name ≢ name))
unfolding register_agent add_entry
register_agent_exact r q none o name ipv4 fd s done p x held =
    let (r', less, _, _, _) = unregister_by_name-IsSound r s name in
    let same : r' ≡ q = ground (arith, less) in
    inr ((unregister_by_name_exact r r' name s less p x).0 (rw same held))
register_agent_exact r q (some a) o name ipv4 fd s done p x held =
    let (r', less, _, _, _) = unregister_by_name-IsSound r s name in
    let new : AgentEntry = record { name = name; virtual_ipv4 = ipv4; fd = fd } in
    let same : insert a new r'.heap ≡ q.heap = ground (arith, less) in
    let either : find p (insert a new r'.heap) ≡ (if a == p then some new else find p r'.heap) =
      find-insert a p new r'.heap in
    elim (Bool-cases (a == p)) [
      | inl e ↦ inl (ground (arith, same, either))
      | inr e ↦
          inr ((unregister_by_name_exact r r' name s less p x).0 (ground (arith, same, either)))
    ]

pub empty-Agrees : Agrees empty_registry
unfolding find
empty-Agrees = record {
  at_ipv4 = λ p x h. absurd (ground arith);
  at_fd = λ p x h. absurd (ground arith);
}

-- `register_agent` keeps the indices in agreement if it shares nothing with another agent.
pub register_agent_keeps :
    (r q : AgentRegistry) (new_entry o : Option ℕ) (name : Text) (ipv4 : ℕ) (fd : ℤ)
    → IsSound r
    → Agrees r
    → Unshared (registers new_entry name ipv4 fd) r
    → register_agent new_entry name ipv4 fd r ≡ some (q, o)
    → Agrees q
unfolding apply
register_agent_keeps r q new_entry o name ipv4 fd s a apart done =
    apply-Agrees (registers new_entry name ipv4 fd) r q s a apart (rw done)
