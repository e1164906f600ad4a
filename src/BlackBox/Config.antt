-- ===== src/BlackBox/Config.antt =====
-- src/blackbox/config.cpp. A `std::string` is its bytes, the file is what `ifstream` reads of it
-- (none if it does not open), and `inet_pton` is a parameter. The line numbers, which only the
-- messages on stderr show, are left out.
pub mod Lexer
pub mod Rules
pub mod Names
pub mod Permits
pub mod Tests
use v_net.Base.{
  ℕ, ◌≡◌, Bool, true, false, not, ◌&&◌, ◌||◌, Option, none, some, List, [], ◌∷◌, nat_eq, text_eq,
  Text, ◌==◌, if◌then◌else◌,
}
use v_net.Base.Map.{find, insert}
use Lexer.{is_empty, Line, lines_of, collect, c_str, strip_prefix, internet_prefix}

pub record Config : Type 0 where
  pub name_to_ip : List (Text × ℕ)
  pub ip_to_name : List (ℕ × Text)
  pub agent_acl : List (ℕ × List ℕ)
  pub internet_acl : List (ℕ × List ℕ)

abbrev pub empty_config : Config
empty_config = record { name_to_ip = []; ip_to_name = []; agent_acl = []; internet_acl = [] }

-- `unordered_set`: `count` and `insert`.
abbrev pub contains : ℕ → List ℕ → Bool
contains x [] = false
contains x (y ∷ ys) = y == x || contains x ys

abbrev pub set_insert : ℕ → List ℕ → List ℕ
set_insert x ys = if contains x ys then ys else x ∷ ys

-- `m[k]`, where a missing set is empty.
abbrev pub set_at : ℕ → List (ℕ × List ℕ) → List ℕ
set_at k m = elim (find k m) [ none ↦ [] | some ys ↦ ys ]

-- `m[k].insert(x)`
unfoldable pub allow : ℕ → ℕ → List (ℕ × List ℕ) → List (ℕ × List ℕ)
allow k x m = insert k (set_insert x (set_at k m)) m

abbrev pub is_some {κ} : {A : Type κ} → Option A → Bool
is_some none = false
is_some (some x) = true

-- ----- lookups

unfoldable pub find_agent_for_ip : Config → ℕ → Text
find_agent_for_ip c ipv4 = elim (find ipv4 c.ip_to_name) [ none ↦ [] | some name ↦ name ]

unfoldable pub find_ip_for_agent : Config → Text → ℕ
find_ip_for_agent c name = elim (find name c.name_to_ip) [ none ↦ 0 | some ipv4 ↦ ipv4 ]

unfoldable pub can_agents_communicate : Config → ℕ → ℕ → Bool
can_agents_communicate c src_ipv4 dst_ipv4 = elim (find src_ipv4 c.agent_acl) [
  | none ↦ false
  | some ips ↦ contains dst_ipv4 ips
]

unfoldable pub can_reach_internet_ip : Config → ℕ → ℕ → Bool
can_reach_internet_ip c agent_ipv4 internet_ipv4 = elim (find agent_ipv4 c.internet_acl) [
  | none ↦ false
  | some ips ↦ contains internet_ipv4 ips
]

pub has_any_internet_access : Config → ℕ → Bool
has_any_internet_access c agent_ipv4 = elim (find agent_ipv4 c.internet_acl) [
  | none ↦ false
  | some ips ↦ not (is_empty ips)
]

module _ (inet_pton : Text → Option ℕ) where
  unfoldable pub parse_ipv4 : Text → ℕ
  parse_ipv4 s = elim (inet_pton (c_str s)) [ none ↦ 0 | some addr ↦ addr ]

  unfoldable pub is_ipv4 : Text → Bool
  is_ipv4 s = is_some (inet_pton (c_str s))

  -- One round of the first pass: the configuration, and whether the pass goes on.
  assign_line : Line → Config → Config × Bool
  assign_line l c =
      if not (is_ipv4 l.second)
      then (c, true)
      else let ipv4 = parse_ipv4 l.second in
        if ipv4 == 0
        then (c, false)
        else if is_some (find ipv4 c.ip_to_name)
        then (c, false)
        else if is_some (find l.first c.name_to_ip)
        then (c, false)
        else (
          record c {
            name_to_ip = insert l.first ipv4 c.name_to_ip;
            ip_to_name = insert ipv4 l.first c.ip_to_name;
          },
          true,
        )

  -- The rule of a line whose source agent has the address `src_ip`.
  internet_rule : ℕ → Text → Config → Config × Bool
  internet_rule src_ip ip_str c =
      let inet_ip = parse_ipv4 ip_str in
      if inet_ip == 0
      then (c, false)
      else (record c { internet_acl = allow src_ip inet_ip c.internet_acl }, true)

  agent_rule : ℕ → Text → Config → Config × Bool
  agent_rule src_ip name c = elim (find name c.name_to_ip) [
    | none ↦ (c, false)
    | some dst_ip ↦
        (record c { agent_acl = allow dst_ip src_ip (allow src_ip dst_ip c.agent_acl) }, true)
  ]

  -- One round of the second pass.
  rule_line : Line → Config → Config × Bool
  unfolding internet_rule agent_rule
  rule_line l c = if is_ipv4 l.second then (c, true) else elim (find l.first c.name_to_ip) [
    | none ↦ (c, false)
    | some src_ip ↦ elim (strip_prefix internet_prefix l.second) [
      | some ip_str ↦ internet_rule src_ip ip_str c
      | none ↦ agent_rule src_ip l.second c
    ]
  ]

  pub assign_lines : List Line → Config → Config × Bool
  assign_lines [] c = (c, true)
  assign_lines (l ∷ ls) c =
      let (c', more) = assign_line l c in if more then assign_lines ls c' else (c', false)

  pub rule_lines : List Line → Config → Config × Bool
  rule_lines [] c = (c, true)
  rule_lines (l ∷ ls) c =
      let (c', more) = rule_line l c in if more then rule_lines ls c' else (c', false)

  pub load_lines : List Line → Config × Bool
  unfolding assign_lines rule_lines
  load_lines ls =
      let (c, assigned) = assign_lines ls empty_config in
      if assigned then rule_lines ls c else (c, false)

  -- `load`: the configuration that it leaves and what it returns.
  pub load : Option Text → Config → Config × Bool
  unfolding load_lines
  load none c = (c, false)
  load (some file) c = elim (collect (lines_of file)) [
    | none ↦ (empty_config, false)
    | some ls ↦ load_lines ls
  ]
