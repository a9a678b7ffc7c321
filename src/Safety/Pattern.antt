-- ===== src/Safety/Pattern.antt =====
-- The part of Python's `re` that the program's deny patterns use: a pattern, and `search`.
-- White space is that of `str.isspace`; word characters are those of ASCII.
use hyprland_agent.Prelude.{
  ℕ, Text, Bool, true, false, ◌&&◌, ◌||◌, not, Option, none, some, List, [], ◌∷◌, ◌++◌, leb, ◌==◌,
  if◌then◌else◌,
}

pub data Pattern : Type 0 where
  one : (ℕ → Bool) → Pattern
  many : (ℕ → Bool) → Pattern
  boundary text_end : Pattern
  either : Pattern → Pattern → Pattern
  seq : Pattern → Pattern → Pattern
  nothing : Pattern

-- The character before a position, and the text after it.
abbrev pub Position : Type 0
Position = Option ℕ × Text

abbrev pub is_space : ℕ → Bool
is_space c =
    (c == 32)
    || (leb 9 c && leb c 13)
    || (leb 28 c && leb c 31)
    || (c == 133)
    || (c == 160)
    || (c == 5760)
    || (leb 8192 c && leb c 8202)
    || (c == 8232)
    || (c == 8233)
    || (c == 8239)
    || (c == 8287)
    || (c == 12288)

abbrev pub is_letter : ℕ → Bool
is_letter c = (leb b'a' c && leb c b'z') || (leb b'A' c && leb c b'Z')

abbrev pub is_word : ℕ → Bool
is_word c = is_letter c || (leb b'0' c && leb c b'9') || (c == b'_')

-- `.`: anything but a line feed.
abbrev pub is_any : ℕ → Bool
is_any c = not (c == 10)

abbrev pub is_word_before : Option ℕ → Bool
is_word_before none = false
is_word_before (some c) = is_word c

abbrev pub is_word_after : Text → Bool
is_word_after [] = false
is_word_after (c ∷ cs) = is_word c

-- `$`: at the end, or before a line feed at the end.
abbrev pub is_end : Text → Bool
is_end [] = true
is_end (c ∷ []) = c == 10
is_end (c ∷ d ∷ cs) = false

abbrev pub differ : Bool → Bool → Bool
differ true b = not b
differ false b = b

-- Every position that a run of the characters can end at.
unfoldable pub ends_many : (ℕ → Bool) → Option ℕ → Text → List Position
ends_many p before [] = (before, []) ∷ []
ends_many p before (c ∷ cs) =
    let more = ends_many p (some c) cs in (before, c ∷ cs) ∷ (if p c then more else [])

-- `f` at each position, all the results together.
unfoldable pub each : (Position → List Position) → List Position → List Position
each f [] = []
each f (x ∷ xs) = f x ++ each f xs

abbrev pub ends_one : (ℕ → Bool) → Position → List Position
ends_one p (before, []) = []
ends_one p (before, c ∷ cs) = if p c then (some c, cs) ∷ [] else []

-- Every position that a match from a position can end at.
unfoldable pub ends : Pattern → Position → List Position
unfolding ends_many each
ends (one p) at = ends_one p at
ends (many p) at = ends_many p at.0 at.1
ends boundary at = if differ (is_word_before at.0) (is_word_after at.1) then at ∷ [] else []
ends text_end at = if is_end at.1 then at ∷ [] else []
ends (either p q) at = ends p at ++ ends q at
ends (seq p q) at = each (ends q) (ends p at)
ends nothing at = at ∷ []

abbrev pub is_some_end : List Position → Bool
is_some_end [] = false
is_some_end (x ∷ xs) = true

-- `pattern.search(text)`, from a position on.
unfoldable pub search_from : Pattern → Option ℕ → Text → Bool
unfolding ends
search_from p before [] = is_some_end (ends p (before, []))
search_from p before (c ∷ cs) = is_some_end (ends p (before, c ∷ cs)) || search_from p (some c) cs

-- A character.
abbrev pub chr : ℕ → Pattern
chr c = one (λ d. d == c)

-- The characters of a text, then a pattern.
abbrev pub word : Text → Pattern → Pattern
word [] rest = rest
word (c ∷ cs) rest = seq (chr c) (word cs rest)

-- One or more characters of a class, then a pattern.
abbrev pub some_of : (ℕ → Bool) → Pattern → Pattern
some_of p rest = seq (one p) (seq (many p) rest)
