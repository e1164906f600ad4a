-- ===== src/BlackBox/Config/Names.antt =====
-- The first pass of `Config::load`: the two name maps.
use v_net.Base.Map.{find, find-insert}
use v_net.BlackBox.Config.Lexer.{Line}
use v_net.BlackBox.Config.{
  find_ip_for_agent, List, some, ◌≡◌, Option, ℕ, Text, Config, empty_config, parse_ipv4, is_ipv4,
  assign_line, assign_lines,
}
use v_net.Base.{
  Option-cases, refl, inr, inl, Bool-cases, ◌==◌, ◌&&◌, [], if◌then◌else◌, nat_eq, none, text_eq,
  true, ◌∷◌, ◌≢◌, arith,
}

-- The name maps are inverse to one another, and no agent has the address 0.
pub record IsConsistent (c : Config) : Type 0 where
  pub forward : (n : Text) (ip : ℕ) → find n c.name_to_ip ≡ some ip → find ip c.ip_to_name ≡ some n
  pub backward : (n : Text) (ip : ℕ) → find ip c.ip_to_name ≡ some n → find n c.name_to_ip ≡ some ip
  pub nonzero : (n : Text) (ip : ℕ) → find n c.name_to_ip ≡ some ip → ip ≢ 0

pub empty-IsConsistent : IsConsistent empty_config
unfolding find
empty-IsConsistent = record {
  forward = λ n ip h. cc;
  backward = λ n ip h. cc;
  nonzero = λ n ip h. cc;
}

module _ (inet_pton : Text → Option ℕ) where
  assign_line-IsConsistent :
      (l : Line) (c : Config) → IsConsistent c → IsConsistent (assign_line inet_pton l c).0
  unfolding assign_line
  assign_line-IsConsistent l c v = record {
    forward = λ n ip h. ground (
      arith,
      v.forward n ip,
      v.backward n ip,
      find-insert l.first n (parse_ipv4 inet_pton l.second) c.name_to_ip,
      find-insert (parse_ipv4 inet_pton l.second) ip l.first c.ip_to_name,
      text_eq.same_iff l.first n,
    );
    backward = λ n ip h. ground (
      arith,
      v.forward n ip,
      v.backward n ip,
      find-insert l.first n (parse_ipv4 inet_pton l.second) c.name_to_ip,
      find-insert (parse_ipv4 inet_pton l.second) ip l.first c.ip_to_name,
      text_eq.same_iff l.first n,
    );
    nonzero = λ n ip h.
        ground (
          arith,
          v.nonzero n ip,
          find-insert l.first n (parse_ipv4 inet_pton l.second) c.name_to_ip,
        );
  }

  pub assign_lines-IsConsistent :
      (ls : List Line) (c : Config) → IsConsistent c → IsConsistent (assign_lines inet_pton ls c).0
  unfolding assign_lines
  assign_lines-IsConsistent [] c v = v
  assign_lines-IsConsistent (l ∷ ls) c v =
      let kept = assign_line-IsConsistent l c v in
      elim (Bool-cases (assign_line inet_pton l c).1) [
        | inl more ↦ rw more (assign_lines-IsConsistent ls _ kept)
        | inr stop ↦ rw stop kept
      ]

  -- The address that the lines assign to a name, by the first line that assigns one.
  pub assigned : List Line → Text → Option ℕ
  assigned [] n = none
  assigned (l ∷ ls) n =
      if is_ipv4 inet_pton l.second && l.first == n
      then some (parse_ipv4 inet_pton l.second)
      else assigned ls n

  abbrev or_else : Option ℕ → Option ℕ → Option ℕ
  or_else none o = o
  or_else (some x) o = some x

  assign_line-assigned :
      (l : Line) (c : Config) (n : Text)
      → (assign_line inet_pton l c).1 ≡ true
      → find n (assign_line inet_pton l c).0.name_to_ip
        ≡ or_else (find n c.name_to_ip) (assigned (l ∷ []) n)
  unfolding assign_line assigned
  assign_line-assigned l c n more = ground (
    arith,
    find-insert l.first n (parse_ipv4 inet_pton l.second) c.name_to_ip,
    text_eq.same_iff l.first n,
  )

  -- When the first pass succeeds, a name that had no address has the one that its line assigns.
  pub assign_lines-assigned :
      (ls : List Line) (c : Config) (n : Text)
      → (assign_lines inet_pton ls c).1 ≡ true
      → find n (assign_lines inet_pton ls c).0.name_to_ip
        ≡ or_else (find n c.name_to_ip) (assigned ls n)
  unfolding assign_lines assigned
  assign_lines-assigned [] c n done = ground arith
  assign_lines-assigned (l ∷ ls) c n done =
      ground (
        arith,
        assign_line-assigned l c n,
        assign_lines-assigned ls (assign_line inet_pton l c).0 n,
      )

  -- The first pass leaves the rules alone.
  pub assign_lines-acl :
      (ls : List Line) (c : Config)
      → ((assign_lines inet_pton ls c).0.agent_acl ≡ c.agent_acl)
        × ((assign_lines inet_pton ls c).0.internet_acl ≡ c.internet_acl)
  unfolding assign_lines assign_line
  assign_lines-acl [] c = (refl, refl)
  assign_lines-acl (l ∷ ls) c = ground (arith, assign_lines-acl ls (assign_line inet_pton l c).0)

-- No two agents have one address.
pub find_ip_for_agent-injective :
    (c : Config) (n m : Text)
    → IsConsistent c
    → find_ip_for_agent c n ≢ 0
    → find_ip_for_agent c n ≡ find_ip_for_agent c m
    → n ≡ m
unfolding find_ip_for_agent
find_ip_for_agent-injective c n m v h e = elim (Option-cases (find n c.name_to_ip)) [
  | inl none_n ↦ absurd (ground arith)
  | inr (ip, at_n) ↦ elim (Option-cases (find m c.name_to_ip)) [
    | inl none_m ↦ absurd (ground arith)
    | inr (ip', at_m) ↦ ground (arith, v.forward n ip, v.forward m ip')
  ]
]
