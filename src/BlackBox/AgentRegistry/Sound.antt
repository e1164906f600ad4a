-- ===== src/BlackBox/AgentRegistry/Sound.antt =====
-- Memory safety of the registry: no index holds a dangling pointer, and no agent is lost.
use v_net.Base.{
  refl, ◌>>=◌, subst, Option, Option-cases, inr, inl, ◌⊎◌, Text, ℤ, ℕ, ◌≡◌, none, some, nat_eq,
  int_eq, text_eq, arith,
}
use v_net.Base.Map.{
  find-insert_self, insert-IsMap, erase-IsMap, find, insert, erase, find-insert, find-erase, IsMap,
}
use v_net.BlackBox.AgentRegistry.{
  find_by_fd, find_by_ipv4, find_by_name, deref, remove_entry, add_entry, register_agent,
  unregister_by_fd, unregister_by_name, AgentEntry, AgentRegistry, empty_registry,
}
use v_net.BlackBox.AgentRegistry.Index.{key_at_live, insert-Indexes, erase-Indexes, Indexes}

-- Each index holds live entries under their own keys, and every live entry stands in `by_name`.
pub record IsSound (r : AgentRegistry) : Type 0 where
  pub ipv4_live : Indexes (λ x. x.virtual_ipv4) r.by_ipv4 r.heap
  pub fd_live : Indexes (λ x. x.fd) r.by_fd r.heap
  pub name_live : Indexes (λ x. x.name) r.by_name r.heap
  pub named : (p : ℕ) (x : AgentEntry) → find p r.heap ≡ some x → find x.name r.by_name ≡ some p
  pub names_once : IsMap r.by_name

pub empty-IsSound : IsSound empty_registry
unfolding find
empty-IsSound = record {
  ipv4_live = λ k p h. ground arith;
  fd_live = λ k p h. ground arith;
  name_live = λ k p h. ground arith;
  named = λ p x h. ground arith;
  names_once = tt;
}

-- An address that `new` may return while `name` is registered: a free one, or that of the entry
-- that `register_agent` has just deleted.
abbrev pub IsFresh : Text → ℕ → AgentRegistry → Type 0
IsFresh name p r = (find p r.heap ≡ none) ⊎ (find name r.by_name ≡ some p)

-- The registry after the removal of a live entry.
abbrev pub without : AgentRegistry → ℕ → AgentEntry → AgentRegistry
without r p x = record r {
  heap = erase p r.heap;
  by_ipv4 = erase x.virtual_ipv4 r.by_ipv4;
  by_fd = erase x.fd r.by_fd;
  by_name = erase x.name r.by_name;
}

module _ (r : AgentRegistry) (s : IsSound r) where
  erase-named :
      (p : ℕ) (x : AgentEntry)
      → find p r.heap ≡ some x
      → (q : ℕ) (y : AgentEntry) → find q (erase p r.heap) ≡ some y
      → find y.name (erase x.name r.by_name) ≡ some q
  erase-named p x live q y held = ground (
    arith,
    find-erase x.name y.name r.by_name,
    find-erase p q r.heap,
    s.named p x,
    s.named q y,
    text_eq.same_iff x.name y.name,
  )

  insert-named :
      (p : ℕ) (x : AgentEntry)
      → find p r.heap ≡ none
      → find x.name r.by_name ≡ none
      → (q : ℕ) (y : AgentEntry) → find q (insert p x r.heap) ≡ some y
      → find y.name (insert x.name p r.by_name) ≡ some q
  insert-named p x free unnamed q y held = ground (
    arith,
    find-insert x.name y.name p r.by_name,
    find-insert p q x r.heap,
    s.named q y,
    text_eq.same_iff x.name y.name,
  )

  without-IsSound : (p : ℕ) (x : AgentEntry) → find p r.heap ≡ some x → IsSound (without r p x)
  without-IsSound p x live = record {
    ipv4_live = erase-Indexes (λ y. y.virtual_ipv4) r.by_ipv4 r.heap p x live s.ipv4_live;
    fd_live = erase-Indexes (λ y. y.fd) r.by_fd r.heap p x live s.fd_live;
    name_live = erase-Indexes (λ y. y.name) r.by_name r.heap p x live s.name_live;
    named = erase-named p x live;
    names_once = erase-IsMap x.name r.by_name s.names_once;
  }

  -- Adding an entry at a free address under a free name.
  add_entry-IsSound :
      (p : ℕ) (x : AgentEntry)
      → find p r.heap ≡ none
      → find x.name r.by_name ≡ none
      → IsSound (add_entry (some p) x r).0
  unfolding add_entry
  add_entry-IsSound p x free unnamed = record {
    ipv4_live = insert-Indexes (λ y. y.virtual_ipv4) r.by_ipv4 r.heap p x free s.ipv4_live;
    fd_live = insert-Indexes (λ y. y.fd) r.by_fd r.heap p x free s.fd_live;
    name_live = insert-Indexes (λ y. y.name) r.by_name r.heap p x free s.name_live;
    named = insert-named p x free unnamed;
    names_once = insert-IsMap x.name p r.by_name s.names_once;
  }

  name_entry :
      (name : Text) (p : ℕ)
      → find name r.by_name ≡ some p
      → (x : AgentEntry) × (find p r.heap ≡ some x) × (x.name ≡ name)
  name_entry name p h = key_at_live (λ y. y.name) r.heap p (s.name_live name p h)

  fd_entry :
      (fd : ℤ) (p : ℕ)
      → find fd r.by_fd ≡ some p
      → (x : AgentEntry) × (find p r.heap ≡ some x) × (x.fd ≡ fd)
  fd_entry fd p h = key_at_live (λ y. y.fd) r.heap p (s.fd_live fd p h)

  -- How `unregister_by_name` ends: the name was not there, or its entry is removed.
  pub unregister_by_name_cases :
      (name : Text)
      → ((find name r.by_name ≡ none) × (unregister_by_name name r ≡ some r))
        ⊎ ((p : ℕ) × (x : AgentEntry) × (find name r.by_name ≡ some p)
            × (find p r.heap ≡ some x)
            × (x.name ≡ name)
            × (unregister_by_name name r ≡ some (without r p x)))
  unfolding unregister_by_name remove_entry
  unregister_by_name_cases name = elim (Option-cases (find name r.by_name)) [
    | inl e ↦ inl (e, ground arith)
    | inr (p, e) ↦
        let (x, live, named) = name_entry name p e in inr (p, x, e, live, named, ground arith)
  ]

  pub unregister_by_fd_cases :
      (fd : ℤ)
      → ((find fd r.by_fd ≡ none) × (unregister_by_fd fd r ≡ some r))
        ⊎ ((p : ℕ) × (x : AgentEntry) × (find fd r.by_fd ≡ some p)
            × (find p r.heap ≡ some x)
            × (x.fd ≡ fd)
            × (unregister_by_fd fd r ≡ some (without r p x)))
  unfolding unregister_by_fd remove_entry
  unregister_by_fd_cases fd = elim (Option-cases (find fd r.by_fd)) [
    | inl e ↦ inl (e, ground arith)
    | inr (p, e) ↦
        let (x, live, named) = fd_entry fd p e in inr (p, x, e, live, named, ground arith)
  ]

  -- After `unregister_by_name` the registry is sound and no agent has the name.
  pub unregister_by_name-IsSound :
      (name : Text)
      → (q : AgentRegistry) × (unregister_by_name name r ≡ some q)
        × IsSound q
        × (find name q.by_name ≡ none)
        × ((p : ℕ) → IsFresh name p r → find p q.heap ≡ none)
  unregister_by_name-IsSound name = elim (unregister_by_name_cases name) [
    | inl (e, done) ↦ (r, done, s, e, λ p f. ground arith)
    | inr (p, x, e, live, named, done) ↦ (
      without r p x,
      done,
      without-IsSound p x live,
      ground (arith, find-erase x.name name r.by_name, text_eq.same_iff x.name name),
      λ q f. ground (arith, find-erase p q r.heap),
    )
  ]

  -- After `unregister_by_fd` the registry is sound and no agent has the descriptor.
  unregister_by_fd-IsSound :
      (fd : ℤ)
      → (q : AgentRegistry) × (unregister_by_fd fd r ≡ some q)
        × IsSound q
        × (find fd q.by_fd ≡ none)
  unregister_by_fd-IsSound fd = elim (unregister_by_fd_cases fd) [
    | inl (e, done) ↦ (r, done, s, e)
    | inr (p, x, e, live, named, done) ↦ (
      without r p x,
      done,
      without-IsSound p x live,
      ground (arith, find-erase x.fd fd r.by_fd, int_eq.same_iff x.fd fd),
    )
  ]

-- `register_agent` on a sound registry. With memory for the entry, at an address that no other
-- live entry has, it returns that address, the three indices lead to it, and the entry holds the
-- arguments. With none it returns null and the name is not registered. It never faults, and the
-- registry stays sound.
pub register_agent-IsSound :
    (r : AgentRegistry) (new_entry : Option ℕ) (name : Text) (ipv4 : ℕ) (fd : ℤ)
    → IsSound r
    → ((p : ℕ) → new_entry ≡ some p → IsFresh name p r)
    → (q : AgentRegistry) × (register_agent new_entry name ipv4 fd r ≡ some (q, new_entry))
      × IsSound q
      × (find_by_name name q ≡ new_entry)
      × ((p : ℕ)
          → new_entry ≡ some p
          → (deref p q ≡ some (record { name = name; virtual_ipv4 = ipv4; fd = fd }))
            × (find_by_ipv4 ipv4 q ≡ some p)
            × (find_by_fd fd q ≡ some p))
unfolding register_agent add_entry find_by_name find_by_ipv4 find_by_fd
register_agent-IsSound r none name ipv4 fd s f =
    let (q, done, sound, unnamed, _) = unregister_by_name-IsSound r s name in
    (q, rw done, sound, unnamed, λ p e. cc)
register_agent-IsSound r (some p) name ipv4 fd s f =
    let (q, done, sound, unnamed, free) = unregister_by_name-IsSound r s name in
    let entry : AgentEntry = record { name = name; virtual_ipv4 = ipv4; fd = fd } in
    (
      (add_entry (some p) entry q).0,
      rw done,
      add_entry-IsSound q sound p entry (free p (f p refl)) unnamed,
      find-insert_self name p q.by_name,
      λ o e.
          let same : o ≡ p = cc in
          rw same (
            find-insert_self p entry q.heap,
            find-insert_self ipv4 p q.by_ipv4,
            find-insert_self fd p q.by_fd,
          ),
    )

-- The calls that change a registry.
pub data Call : Type 0 where
  registers : Option ℕ → Text → ℕ → ℤ → Call
  unregisters_fd : ℤ → Call
  unregisters_name : Text → Call

unfoldable pub apply : Call → AgentRegistry → Option AgentRegistry
apply (registers new_entry name ipv4 fd) r = do
  done ← register_agent new_entry name ipv4 fd r
  some done.0
apply (unregisters_fd fd) r = unregister_by_fd fd r
apply (unregisters_name name) r = unregister_by_name name r

-- `new` returns no address that is in use.
abbrev pub Allocates : Call → AgentRegistry → Type 0
Allocates (registers new_entry name ipv4 fd) r = (p : ℕ) → new_entry ≡ some p → IsFresh name p r
Allocates (unregisters_fd fd) r = Unit {0}
Allocates (unregisters_name name) r = Unit {0}

-- Every call on a sound registry returns without a fault and leaves it sound: the indices hold no
-- dangling pointer and no two entries of one name, whatever the names, addresses and descriptors
-- are and whether or not memory was given.
pub apply-IsSound :
    (c : Call) (r : AgentRegistry)
    → IsSound r
    → Allocates c r
    → (q : AgentRegistry) × (apply c r ≡ some q) × IsSound q
unfolding apply
apply-IsSound (registers new_entry name ipv4 fd) r s f =
    let (q, done, sound, _, _) = register_agent-IsSound r new_entry name ipv4 fd s f in
    (q, rw done, sound)
apply-IsSound (unregisters_fd fd) r s f =
    let (q, done, sound, _) = unregister_by_fd-IsSound r s fd in (q, done, sound)
apply-IsSound (unregisters_name name) r s f =
    let (q, done, sound, _, _) = unregister_by_name-IsSound r s name in (q, done, sound)

-- The registries that a program can come to.
pub data Reachable : AgentRegistry → Type 0 where
  start : Reachable empty_registry
  call :
      {r q : AgentRegistry} (c : Call)
      → Reachable r
      → Allocates c r
      → apply c r ≡ some q
      → Reachable q

pub Reachable-IsSound : {r : AgentRegistry} → Reachable r → IsSound r
Reachable-IsSound start = empty-IsSound
Reachable-IsSound (call {r} {q} c h a e) =
    let (o, done, sound) = apply-IsSound c r (Reachable-IsSound h) a in
    let same : o ≡ q = cc in subst IsSound same sound

-- A pointer that a lookup returns is live, and its entry has the key that was looked up.
pub find_by_ipv4-live :
    (r : AgentRegistry) (ip p : ℕ)
    → IsSound r
    → find_by_ipv4 ip r ≡ some p
    → (x : AgentEntry) × (deref p r ≡ some x) × (x.virtual_ipv4 ≡ ip)
unfolding find_by_ipv4
find_by_ipv4-live r ip p s h = key_at_live (λ x. x.virtual_ipv4) r.heap p (s.ipv4_live ip p h)

pub find_by_fd-live :
    (r : AgentRegistry) (fd : ℤ) (p : ℕ)
    → IsSound r
    → find_by_fd fd r ≡ some p
    → (x : AgentEntry) × (deref p r ≡ some x) × (x.fd ≡ fd)
unfolding find_by_fd
find_by_fd-live r fd p s h = key_at_live (λ x. x.fd) r.heap p (s.fd_live fd p h)
