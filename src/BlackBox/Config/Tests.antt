-- ===== src/BlackBox/Config/Tests.antt =====
-- A configuration file with two agents, a rule between them and an internet host.
use v_net.Base.{
  ℕ, Text, Option, none, some, List, [], ◌∷◌, ◌≡◌, refl, leb, ◌&&◌, if◌then◌else◌, ◌-◌, true, ◌≢◌,
  ◌↔◌,
}
use v_net.BlackBox.Config.{
  Config, empty_config, load, find_ip_for_agent, find_agent_for_ip, can_agents_communicate,
  can_reach_internet_ip, has_any_internet_access,
}
use v_net.BlackBox.Config.Lexer.{Line, lines_of, collect}
use v_net.BlackBox.Config.Names.{assigned}
use v_net.BlackBox.Config.Rules.{any_links, any_opens}
use v_net.BlackBox.Config.Permits.{load-names, load-permits, has_any_internet_access_iff}

-- An `inet_pton` that knows the addresses 0.0.0.0 to 0.0.0.9 by their last digit.
abbrev digit_pton : Text → Option ℕ
digit_pton [] = none
digit_pton (c ∷ []) = if leb b'0' c && leb c b'9' then some (c - b'0') else none
digit_pton (c ∷ d ∷ cs) = none

-- "a 1\nb 2\na b\na ::internet:7\n"
abbrev sample_file : Text
sample_file =
    b'a' ∷ b' ' ∷ b'1' ∷ b'\n' ∷ b'b' ∷ b' ' ∷ b'2' ∷ b'\n' ∷ b'a' ∷ b' ' ∷ b'b' ∷ b'\n' ∷ b'a'
    ∷ b' ' ∷ b':' ∷ b':' ∷ b'i' ∷ b'n' ∷ b't' ∷ b'e' ∷ b'r' ∷ b'n' ∷ b'e' ∷ b't' ∷ b':' ∷ b'7'
    ∷ b'\n' ∷ []

abbrev sample_config : Config
sample_config = record {
  name_to_ip = ((b'a' ∷ []), 1) ∷ ((b'b' ∷ []), 2) ∷ [];
  ip_to_name = (1, (b'a' ∷ [])) ∷ (2, (b'b' ∷ [])) ∷ [];
  agent_acl = (1, (2 ∷ [])) ∷ (2, (1 ∷ [])) ∷ [];
  internet_acl = (1, (7 ∷ [])) ∷ [];
}

sample_loads : load digit_pton (some sample_file) empty_config ≡ (sample_config, true)
unfolding load collect lines_of v_net.BlackBox.Config.assign_line v_net.BlackBox.Config.is_ipv4
    v_net.BlackBox.Config.Lexer.c_str v_net.BlackBox.Config.parse_ipv4 v_net.Base.Map.find
    v_net.Base.Map.insert v_net.BlackBox.Config.rule_line v_net.BlackBox.Config.Lexer.strip_prefix
    v_net.BlackBox.Config.allow
sample_loads = refl

load-names_example :
    (ls : List Line) × (collect (lines_of sample_file) ≡ some ls)
    × ((n : Text)
        → find_ip_for_agent sample_config n
          ≡ (elim (assigned digit_pton ls n) [ none ↦ 0 | some ip ↦ ip ]))
    × ((n : Text)
        → find_ip_for_agent sample_config n ≢ 0
        → find_agent_for_ip sample_config (find_ip_for_agent sample_config n) ≡ n)
    × ((ip : ℕ)
        → find_agent_for_ip sample_config ip ≢ []
        → find_ip_for_agent sample_config (find_agent_for_ip sample_config ip) ≡ ip)
load-names_example = load-names digit_pton sample_file empty_config sample_config sample_loads

load-permits_example :
    (ls : List Line) × (collect (lines_of sample_file) ≡ some ls)
    × ((a b : ℕ)
        → can_agents_communicate sample_config a b
          ≡ any_links digit_pton (assigned digit_pton ls) ls a b)
    × ((a x : ℕ)
        → can_reach_internet_ip sample_config a x
          ≡ any_opens digit_pton (assigned digit_pton ls) ls a x)
load-permits_example = load-permits digit_pton sample_file empty_config sample_config sample_loads

has_any_internet_access_iff_example :
    (has_any_internet_access sample_config 1 ≡ true)
    ↔ ((x : ℕ) × (can_reach_internet_ip sample_config 1 x ≡ true))
has_any_internet_access_iff_example = has_any_internet_access_iff sample_config 1
