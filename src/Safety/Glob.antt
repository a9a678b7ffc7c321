-- ===== src/Safety/Glob.antt =====
-- `fnmatch.fnmatch` of Python's library: shell patterns with `*`, `?` and `[…]`.
use hyprland_agent.Prelude.{
  ℕ, zero, suc, ◌-◌, ◌≡◌, refl, Text, Bool, true, false, not, ◌&&◌, ◌||◌, Option, none, some, List,
  [], ◌∷◌, leb, ◌==◌, length, if◌then◌else◌,
}

-- A pattern in parts: `within negated ranges` is a bracket expression.
pub data Token : Type 0 where
  star any : Token
  lit : ℕ → Token
  within : Bool → List (ℕ × ℕ) → Token

-- What stands before the next `]`, and what behind it.
unfoldable pub until_bracket : Text → Option (Text × Text)
until_bracket [] = none
until_bracket (c ∷ cs) =
    let rest = until_bracket cs in
    if c == b']'
    then some ([], cs)
    else elim rest [ none ↦ none | some (inner, after) ↦ some (c ∷ inner, after) ]

-- `a-z` is a range, and any other character stands for itself.
unfoldable pub ranges : Text → List (ℕ × ℕ)
ranges [] = []
ranges (c ∷ []) = (c, c) ∷ []
ranges (c ∷ d ∷ []) = (c, c) ∷ (d, d) ∷ []
ranges (c ∷ d ∷ e ∷ cs) =
    let range = (c, e) ∷ ranges cs in
    let single = (c, c) ∷ ranges (d ∷ e ∷ cs) in if d == b'-' then range else single

-- The first character of a bracket expression is one of its characters, also if it is `]`.
unfoldable pub first_in : Bool → Text → Option (Token × Text)
unfolding until_bracket ranges
first_in negated [] = none
first_in negated (c ∷ cs) = elim (until_bracket cs) [
  | none ↦ none
  | some (inner, after) ↦ some (within negated (ranges (c ∷ inner)), after)
]

-- A bracket expression behind its `[`, and the text behind it: a `!` negates.
unfoldable pub bracket : Text → Option (Token × Text)
unfolding first_in
bracket [] = none
bracket (c ∷ cs) = if c == b'!' then first_in true cs else first_in false (c ∷ cs)

-- The parts of a pattern, once so many characters are skipped. A `[` that is not closed stands
-- for itself.
unfoldable pub tokens : ℕ → Text → List Token
unfolding bracket
tokens skip [] = []
tokens (suc skip) (c ∷ cs) = tokens skip cs
tokens zero (c ∷ cs) = elim (if c == b'[' then bracket cs else none) [
  | some (token, after) ↦ token ∷ tokens (length cs - length after) cs
  | none ↦ (if c == b'*' then star else if c == b'?' then any else lit c) ∷ tokens zero cs
]

unfoldable pub in_ranges : ℕ → List (ℕ × ℕ) → Bool
in_ranges c [] = false
in_ranges c ((lo, hi) ∷ rs) = (leb lo c && leb c hi) || in_ranges c rs

-- Whether a suffix of the text passes the test.
unfoldable pub some_suffix : (Text → Bool) → Text → Bool
some_suffix f [] = f []
some_suffix f (c ∷ cs) = f (c ∷ cs) || some_suffix f cs

-- Whether the first character passes the test, and what is behind it the other.
unfoldable pub first_then : (ℕ → Bool) → (Text → Bool) → Text → Bool
first_then p f [] = false
first_then p f (c ∷ cs) = p c && f cs

abbrev pub is_empty : Text → Bool
is_empty [] = true
is_empty (c ∷ cs) = false

unfoldable pub matches : List Token → Text → Bool
unfolding in_ranges some_suffix first_then
matches [] name = is_empty name
matches (star ∷ ts) name = some_suffix (matches ts) name
matches (any ∷ ts) name = first_then (λ c. true) (matches ts) name
matches (lit d ∷ ts) name = first_then (λ c. c == d) (matches ts) name
matches (within negated rs ∷ ts) name =
    first_then (λ c. if negated then not (in_ranges c rs) else in_ranges c rs) (matches ts) name

-- `fnmatch.fnmatch(name, pattern)`
unfoldable pub fnmatch : Text → Text → Bool
unfolding tokens matches
fnmatch name pattern = matches (tokens 0 pattern) name

some_suffix_empty : (name : Text) → some_suffix is_empty name ≡ true
unfolding some_suffix
some_suffix_empty [] = refl
some_suffix_empty (c ∷ cs) = some_suffix_empty cs

-- The pattern that is one star matches every name.
pub fnmatch_star : (name : Text) → fnmatch name (b'*' ∷ []) ≡ true
unfolding fnmatch
fnmatch_star name = some_suffix_empty name
