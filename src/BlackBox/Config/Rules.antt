-- ===== src/BlackBox/Config/Rules.antt =====
-- The second pass of `Config::load`: the access rules.
use v_net.Base.Map.{find, find-insert}
use v_net.BlackBox.Config.Lexer.{Line, strip_prefix, internet_prefix}
use v_net.BlackBox.Config.{
  agent_rule, false, if◌then◌else◌, true, ◌==◌, Bool, List, ◌≡◌, Option, Text, ℕ, Config, contains,
  set_insert, set_at, allow, parse_ipv4, is_ipv4, rule_line, rule_lines, can_agents_communicate,
  can_reach_internet_ip,
}
use v_net.Base.{
  inr, inl, Option-cases, refl, text_eq, [], nat_eq, none, some, ◌&&◌, ◌||◌, ◌∷◌, arith,
}

contains-set_insert :
    (x y : ℕ) (ys : List ℕ) → contains y (set_insert x ys) ≡ (x == y || contains y ys)
contains-set_insert x y ys = ground arith

-- What one `m[k].insert(x)` adds.
contains-allow :
    (k x a b : ℕ) (m : List (ℕ × List ℕ))
    → contains b (set_at a (allow k x m)) ≡ (k == a && x == b || contains b (set_at a m))
unfolding allow
contains-allow k x a b m =
    ground
      (arith, find-insert k a (set_insert x (set_at k m)) m, contains-set_insert x b (set_at k m))

pub can_agents_communicate_lem :
    (c : Config) (a b : ℕ) → can_agents_communicate c a b ≡ contains b (set_at a c.agent_acl)
unfolding can_agents_communicate
can_agents_communicate_lem c a b = ground arith

pub can_reach_internet_ip_lem :
    (c : Config) (a x : ℕ) → can_reach_internet_ip c a x ≡ contains x (set_at a c.internet_acl)
unfolding can_reach_internet_ip
can_reach_internet_ip_lem c a x = ground arith

-- The address of an agent by the name map.
abbrev pub address_in : Config → Text → Option ℕ
address_in c n = find n c.name_to_ip

-- Both ends are given, in one order or the other.
abbrev pub links : Option ℕ → Option ℕ → ℕ → ℕ → Bool
links none y a b = false
links (some x) none a b = false
links (some x) (some y) a b = x == a && y == b || y == a && x == b

abbrev pub is_host : Option ℕ → ℕ → ℕ → ℕ → Bool
is_host none ip a x = false
is_host (some src) ip a x = src == a && ip == x

module _ (inet_pton : Text → Option ℕ) (address : Text → Option ℕ) where
  -- The line is a rule that lets the agents of the addresses `a` and `b` talk to each other.
  pub rule_links : Line → ℕ → ℕ → Bool
  rule_links l a b =
      if is_ipv4 inet_pton l.second then false else elim (strip_prefix internet_prefix l.second) [
        | some ip_str ↦ false
        | none ↦ links (address l.first) (address l.second) a b
      ]

  -- The line is a rule that lets the agent of the address `a` reach the host `x`.
  pub rule_opens : Line → ℕ → ℕ → Bool
  rule_opens l a x =
      if is_ipv4 inet_pton l.second then false else elim (strip_prefix internet_prefix l.second) [
        | some ip_str ↦ is_host (address l.first) (parse_ipv4 inet_pton ip_str) a x
        | none ↦ false
      ]

  pub any_links : List Line → ℕ → ℕ → Bool
  any_links [] a b = false
  any_links (l ∷ ls) a b = rule_links l a b || any_links ls a b

  pub any_opens : List Line → ℕ → ℕ → Bool
  any_opens [] a x = false
  any_opens (l ∷ ls) a x = rule_opens l a x || any_opens ls a x

pub any_links_comm :
    (inet_pton : Text → Option ℕ) (address : Text → Option ℕ) (ls : List Line) (a b : ℕ)
    → any_links inet_pton address ls a b ≡ any_links inet_pton address ls b a
unfolding any_links rule_links
any_links_comm inet_pton address [] a b = refl
any_links_comm inet_pton address (l ∷ ls) a b =
    ground (arith, any_links_comm inet_pton address ls a b)

module _ (inet_pton : Text → Option ℕ) where
  pub rule_lines-names :
      (ls : List Line) (c : Config)
      → ((rule_lines inet_pton ls c).0.name_to_ip ≡ c.name_to_ip)
        × ((rule_lines inet_pton ls c).0.ip_to_name ≡ c.ip_to_name)
  unfolding rule_lines rule_line
  rule_lines-names [] c = (refl, refl)
  rule_lines-names (l ∷ ls) c = ground (arith, rule_lines-names ls (rule_line inet_pton l c).0)

  agent_rule-links :
      (src : ℕ) (name : Text) (c : Config) (a b : ℕ)
      → (agent_rule inet_pton src name c).1 ≡ true
      → contains b (set_at a (agent_rule inet_pton src name c).0.agent_acl)
        ≡ (links (some src) (find name c.name_to_ip) a b || contains b (set_at a c.agent_acl))
  unfolding agent_rule
  agent_rule-links src name c a b more = elim (Option-cases (find name c.name_to_ip)) [
    | inl e ↦ ground arith
    | inr (dst, e) ↦ ground (
      arith,
      contains-allow dst src a b (allow src dst c.agent_acl),
      contains-allow src dst a b c.agent_acl,
    )
  ]

  rule_line-links :
      (l : Line) (c : Config) (a b : ℕ)
      → (rule_line inet_pton l c).1 ≡ true
      → contains b (set_at a (rule_line inet_pton l c).0.agent_acl)
        ≡ (rule_links inet_pton (address_in c) l a b || contains b (set_at a c.agent_acl))
  unfolding rule_line rule_links
  rule_line-links l c a b more = elim (Option-cases (find l.first c.name_to_ip)) [
    | inl e ↦ ground arith
    | inr (src, e) ↦ ground (arith, agent_rule-links src l.second c a b)
  ]

  rule_line-opens :
      (l : Line) (c : Config) (a x : ℕ)
      → (rule_line inet_pton l c).1 ≡ true
      → contains x (set_at a (rule_line inet_pton l c).0.internet_acl)
        ≡ (rule_opens inet_pton (address_in c) l a x || contains x (set_at a c.internet_acl))
  unfolding rule_line rule_opens
  rule_line-opens l c a x more = elim (Option-cases (find l.first c.name_to_ip)) [
    | inl e ↦ ground arith
    | inr (src, e) ↦ elim (Option-cases (strip_prefix internet_prefix l.second)) [
      | inl agent ↦ ground arith
      | inr (ip, host) ↦
          ground (arith, contains-allow src (parse_ipv4 inet_pton ip) a x c.internet_acl)
    ]
  ]

  rule_line-names : (l : Line) (c : Config) → (rule_line inet_pton l c).0.name_to_ip ≡ c.name_to_ip
  unfolding rule_line
  rule_line-names l c = ground arith

  -- When the second pass succeeds, two agents may talk if they could before or a line links them.
  pub rule_lines-links :
      (ls : List Line) (c : Config) (a b : ℕ)
      → (rule_lines inet_pton ls c).1 ≡ true
      → contains b (set_at a (rule_lines inet_pton ls c).0.agent_acl)
        ≡ (any_links inet_pton (address_in c) ls a b || contains b (set_at a c.agent_acl))
  unfolding rule_lines any_links
  rule_lines-links [] c a b done = refl
  rule_lines-links (l ∷ ls) c a b done = ground (
    arith,
    rule_line-links l c a b,
    rule_line-names l c,
    rule_lines-links ls (rule_line inet_pton l c).0 a b,
  )

  pub rule_lines-opens :
      (ls : List Line) (c : Config) (a x : ℕ)
      → (rule_lines inet_pton ls c).1 ≡ true
      → contains x (set_at a (rule_lines inet_pton ls c).0.internet_acl)
        ≡ (any_opens inet_pton (address_in c) ls a x || contains x (set_at a c.internet_acl))
  unfolding rule_lines any_opens
  rule_lines-opens [] c a x done = refl
  rule_lines-opens (l ∷ ls) c a x done = ground (
    arith,
    rule_line-opens l c a x,
    rule_line-names l c,
    rule_lines-opens ls (rule_line inet_pton l c).0 a x,
  )
