-- ===== src/BlackBox/Config/Permits.antt =====
-- What a configuration that `Config::load` accepted answers, in terms of the lines of its file.
use mathlib.Core.Path.{subst, fun_ext}
use v_net.BlackBox.Config.Rules.{
  any_links_comm, address_in, any_links, any_opens, rule_lines-names, rule_lines-links,
  rule_lines-opens, can_agents_communicate_lem, can_reach_internet_ip_lem,
}
use v_net.Base.Map.{find}
use v_net.BlackBox.Config.Lexer.{is_empty, Line, lines_of, collect}
use v_net.BlackBox.Config.{
  find_agent_for_ip, contains, find_ip_for_agent, has_any_internet_access, true, ◌≡◌, List, some, ℕ,
  Option, Text, Config, empty_config, assign_lines, rule_lines, load_lines, load,
  can_agents_communicate, can_reach_internet_ip,
}
use v_net.BlackBox.Config.Names.{
  IsConsistent, empty-IsConsistent, assigned, assign_lines-assigned, assign_lines-acl,
  assign_lines-IsConsistent,
}
use v_net.Base.{
  refl, [], ◌≢◌, none, false, not, nat_eq, ◌↔◌, ◌∷◌, inr, inl, text_eq, Option-cases, arith,
}

module _ (inet_pton : Text → Option ℕ) (ls : List Line) (c : Config)
    (done : load_lines inet_pton ls ≡ (c, true)) where
  passes :
      ((assign_lines inet_pton ls empty_config).1 ≡ true)
      × (rule_lines inet_pton ls (assign_lines inet_pton ls empty_config).0 ≡ (c, true))
  unfolding load_lines
  passes = ground arith

  first_pass : Config
  first_pass = (assign_lines inet_pton ls empty_config).0

  second_names : (c.name_to_ip ≡ first_pass.name_to_ip) × (c.ip_to_name ≡ first_pass.ip_to_name)
  unfolding first_pass
  second_names = ground (arith, passes, rule_lines-names inet_pton ls first_pass)

  names : (n : Text) → find n c.name_to_ip ≡ assigned inet_pton ls n
  unfolding find first_pass
  names n = ground (arith, passes, second_names, assign_lines-assigned inet_pton ls empty_config n)

  consistent : IsConsistent c
  unfolding first_pass
  consistent =
      let v = assign_lines-IsConsistent inet_pton ls empty_config empty-IsConsistent in
      record {
        forward = λ n ip h. ground (arith, second_names, v.forward n ip);
        backward = λ n ip h. ground (arith, second_names, v.backward n ip);
        nonzero = λ n ip h. ground (arith, second_names, v.nonzero n ip);
      }

  linked :
      (a b : ℕ) → can_agents_communicate c a b ≡ any_links inet_pton (assigned inet_pton ls) ls a b
  unfolding find first_pass
  linked a b =
      let in_map : can_agents_communicate c a b ≡ any_links inet_pton (address_in c) ls a b =
        ground (
          arith,
          passes,
          second_names,
          can_agents_communicate_lem c a b,
          rule_lines-links inet_pton ls first_pass a b,
          assign_lines-acl inet_pton ls empty_config,
        ) in
      subst (λ f. can_agents_communicate c a b ≡ any_links inet_pton f ls a b) (fun_ext names)
        in_map

  opened :
      (a x : ℕ) → can_reach_internet_ip c a x ≡ any_opens inet_pton (assigned inet_pton ls) ls a x
  unfolding find first_pass
  opened a x =
      let in_map : can_reach_internet_ip c a x ≡ any_opens inet_pton (address_in c) ls a x =
        ground (
          arith,
          passes,
          second_names,
          can_reach_internet_ip_lem c a x,
          rule_lines-opens inet_pton ls first_pass a x,
          assign_lines-acl inet_pton ls empty_config,
        ) in
      subst (λ f. can_reach_internet_ip c a x ≡ any_opens inet_pton f ls a x) (fun_ext names) in_map

module _ (inet_pton : Text → Option ℕ) (file : Text) (before c : Config)
    (loads : load inet_pton (some file) before ≡ (c, true)) where
  loaded_lines :
      (ls : List Line) × (collect (lines_of file) ≡ some ls) × (load_lines inet_pton ls ≡ (c, true))
  unfolding load
  loaded_lines = elim (Option-cases (collect (lines_of file))) [
    | inl e ↦ absurd (ground arith)
    | inr (ls, e) ↦ (ls, e, ground arith)
  ]

  -- After `load` has returned true, the file's lines are all well formed; an agent has the address
  -- of the first line that assigns it one, and 0 if none does; and the two name lookups are inverse:
  -- an agent's address leads back to the agent, and a named address to itself.
  pub load-names :
      (ls : List Line) × (collect (lines_of file) ≡ some ls)
      × ((n : Text)
          → find_ip_for_agent c n ≡ (elim (assigned inet_pton ls n) [ none ↦ 0 | some ip ↦ ip ]))
      × ((n : Text) → find_ip_for_agent c n ≢ 0 → find_agent_for_ip c (find_ip_for_agent c n) ≡ n)
      × ((ip : ℕ) → find_agent_for_ip c ip ≢ [] → find_ip_for_agent c (find_agent_for_ip c ip) ≡ ip)
  unfolding find_ip_for_agent find_agent_for_ip
  load-names =
      let (ls, split, done) = loaded_lines in
      let v = consistent inet_pton ls c done in
      (
        ls,
        split,
        λ n. ground (arith, names inet_pton ls c done n),
        λ n h. elim (Option-cases (find n c.name_to_ip)) [
          | inl e ↦ absurd (ground arith)
          | inr (ip, e) ↦ ground (arith, v.forward n ip)
        ],
        λ ip h. elim (Option-cases (find ip c.ip_to_name)) [
          | inl e ↦ absurd (ground arith)
          | inr (n, e) ↦ ground (arith, v.backward n ip)
        ],
      )

  -- After `load` has returned true, two agents may talk exactly if a rule line of the file links
  -- their addresses, in either order; an agent may reach an internet host exactly if a rule line
  -- opens it.
  pub load-permits :
      (ls : List Line) × (collect (lines_of file) ≡ some ls)
      × ((a b : ℕ)
          → can_agents_communicate c a b ≡ any_links inet_pton (assigned inet_pton ls) ls a b)
      × ((a x : ℕ)
          → can_reach_internet_ip c a x ≡ any_opens inet_pton (assigned inet_pton ls) ls a x)
  load-permits =
      let (ls, split, done) = loaded_lines in
      (ls, split, linked inet_pton ls c done, opened inet_pton ls c done)

  -- The agent rules of a loaded configuration are bidirectional.
  pub can_agents_communicate_comm :
      (a b : ℕ) → can_agents_communicate c a b ≡ can_agents_communicate c b a
  can_agents_communicate_comm a b =
      let (ls, split, done) = loaded_lines in
      rw (linked inet_pton ls c done a b, linked inet_pton ls c done b a)
        (any_links_comm inet_pton (assigned inet_pton ls) ls a b)

  pub load-IsConsistent : IsConsistent c
  load-IsConsistent = let (ls, split, done) = loaded_lines in consistent inet_pton ls c done

nonempty_iff :
    (o : Option (List ℕ))
    → ((elim o [ none ↦ false | some ips ↦ not (is_empty ips) ]) ≡ true)
      ↔ ((x : ℕ) × ((elim o [ none ↦ false | some ips ↦ contains x ips ]) ≡ true))
nonempty_iff none = (λ h. absurd (ground arith), λ h. h.1)
nonempty_iff (some []) = (λ h. absurd (ground arith), λ h. h.1)
nonempty_iff (some (x ∷ xs)) = (λ h. (x, ground arith), λ h. refl)

-- An agent has some internet access exactly if there is a host that it may reach.
pub has_any_internet_access_iff :
    (c : Config) (a : ℕ)
    → (has_any_internet_access c a ≡ true) ↔ ((x : ℕ) × (can_reach_internet_ip c a x ≡ true))
unfolding has_any_internet_access can_reach_internet_ip
has_any_internet_access_iff c a = nonempty_iff (find a c.internet_acl)
