-- ===== src/BlackBox/Config/Lexer.antt =====
-- The text side of `Config::load` of src/blackbox/config.cpp: `std::getline`, the two tokens of a line, and prefixes.
use v_net.Base.{
  false, true, ◌&&◌, leb, nat_eq, none, ◌>>=◌, ◌||◌, [], if◌then◌else◌, some, ◌==◌, Bool, Option,
  ◌∷◌, List, Text, ℕ,
}

pub record Line : Type 0 where
  pub first : Text
  pub second : Text

abbrev pub is_empty : List ℕ → Bool
is_empty [] = true
is_empty (x ∷ xs) = false

abbrev cons_head : ℕ → List Text → List Text
cons_head c [] = (c ∷ []) ∷ []
cons_head c (l ∷ ls) = (c ∷ l) ∷ ls

-- What `while (std::getline(file, raw))` reads: a last line needs no newline.
unfoldable pub lines_of : Text → List Text
lines_of [] = []
lines_of (c ∷ cs) = let rest = lines_of cs in if c == b'\n' then [] ∷ rest else cons_head c rest

-- `raw.substr(raw.find_first_not_of(" \t"))`
skip_blanks : Text → Text
skip_blanks [] = []
skip_blanks (c ∷ cs) = if c == b' ' || c == b'\t' then skip_blanks cs else c ∷ cs

-- `isspace`, in the C locale: the blank and the codes from 9 to 13.
abbrev is_space : ℕ → Bool
is_space c = c == b' ' || leb 9 c && leb c 13

skip_spaces : Text → Text
skip_spaces [] = []
skip_spaces (c ∷ cs) = if is_space c then skip_spaces cs else c ∷ cs

-- The characters up to the next space, and the rest.
word : Text → Text × Text
word [] = ([], [])
word (c ∷ cs) = let (w, rest) = word cs in if is_space c then ([], c ∷ cs) else (c ∷ w, rest)

-- `iss >> token`
unfoldable pub token : Text → Text × Text
unfolding skip_spaces word
token s = word (skip_spaces s)

-- `iss >> first >> second` and the test of its result: none is an error.
two_tokens : Text → Option Line
two_tokens s =
    let (first, rest) = token s in
    let (second, _) = token rest in
    if is_empty first || is_empty second
    then none
    else some (record { first = first; second = second })

-- A line is blank, a comment, or an entry; `none` is an error.
unfoldable pub entry_of : Text → Option (Option Line)
unfolding skip_blanks two_tokens token
entry_of raw = elim (skip_blanks raw) [
  | [] ↦ some none
  | c ∷ cs ↦
      if c == b'#'
      then some none
      else elim (two_tokens (c ∷ cs)) [ none ↦ none | some l ↦ some (some l) ]
]

-- The loop over the lines.
unfoldable pub collect : List Text → Option (List Line)
unfolding entry_of
collect [] = some []
collect (raw ∷ rest) = do
  entry ← entry_of raw
  ls ← collect rest
  some (elim entry [ none ↦ ls | some l ↦ l ∷ ls ])

-- `s.c_str()` ends at the first null.
unfoldable pub c_str : Text → Text
c_str [] = []
c_str (c ∷ cs) = if c == 0 then [] else c ∷ c_str cs

-- `s.substr(prefix.size())` if `s.rfind(prefix, 0) == 0`.
unfoldable pub strip_prefix : Text → Text → Option Text
strip_prefix [] s = some s
strip_prefix (p ∷ ps) [] = none
strip_prefix (p ∷ ps) (c ∷ cs) = if p == c then strip_prefix ps cs else none

abbrev pub internet_prefix : Text
internet_prefix = b':' ∷ b':' ∷ b'i' ∷ b'n' ∷ b't' ∷ b'e' ∷ b'r' ∷ b'n' ∷ b'e' ∷ b't' ∷ b':' ∷ []
