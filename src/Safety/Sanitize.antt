-- ===== src/Safety/Sanitize.antt =====
-- `sanitize_command` and its deny patterns, in `src/agent/safety/rate_limit.py`.
pub mod Blocks
mod Tests
use hyprland_agent.Prelude.{
  Text, codes, Bool, true, false, none, List, [], ◌∷◌, ◌++◌, ◌==◌, if◌then◌else◌,
}
use mathlib.Core.List.{reverse}
use hyprland_agent.Safety.Pattern.{
  Pattern, one, chr, many, boundary, text_end, either, seq, nothing, is_space, is_letter, is_any,
  search_from, word, some_of,
}

-- `text.lstrip()`
unfoldable pub lstrip : Text → Text
lstrip [] = []
lstrip (c ∷ cs) = let rest = lstrip cs in if is_space c then rest else c ∷ cs

-- `text.strip()`
unfoldable pub strip : Text → Text
unfolding lstrip
strip s = reverse (lstrip (reverse (lstrip s)))

-- \|\s*(hyprland-agent|agent)\b
abbrev pub pipe_to_agent : Pattern
pipe_to_agent = seq (chr b'|') (
    seq (many is_space) (
      seq (either (word (codes "hyprland-agent") nothing) (word (codes "agent") nothing)) boundary))

-- &\s*$
abbrev pub backgrounding : Pattern
backgrounding = seq (chr b'&') (seq (many is_space) text_end)

-- -[a-zA-Z]*f[a-zA-Z]*\s+
abbrev pub force_flag : Pattern → Pattern
force_flag rest =
    seq (chr b'-')
      (seq (many is_letter) (seq (chr b'f') (seq (many is_letter) (some_of is_space rest))))

-- \brm\s+(-[a-zA-Z]*f[a-zA-Z]*\s+)?/($|\s)
abbrev pub remove_root : Pattern
remove_root =
    let root = seq (chr b'/') (either text_end (one is_space)) in
    seq boundary (word (codes "rm") (some_of is_space (either (force_flag root) root)))

-- \bmkfs\b
abbrev pub make_filesystem : Pattern
make_filesystem = seq boundary (word (codes "mkfs") boundary)

-- \bdd\s+.*of=/dev/
abbrev pub write_device : Pattern
write_device =
    seq boundary
      (word (codes "dd") (some_of is_space (seq (many is_any) (word (codes "of=/dev/") nothing))))

-- Each pattern with its source.
abbrev pub deny_patterns : List (Text × Pattern)
deny_patterns =
    (codes "\\|\\s*(hyprland-agent|agent)\\b", pipe_to_agent)
    ∷ (codes "&\\s*$", backgrounding)
    ∷ (codes "\\brm\\s+(-[a-zA-Z]*f[a-zA-Z]*\\s+)?/($|\\s)", remove_root)
    ∷ (codes "\\bmkfs\\b", make_filesystem)
    ∷ (codes "\\bdd\\s+.*of=/dev/", write_device)
    ∷ []

-- `repr` of a text of printable characters without a quote, as the sources of the patterns are.
abbrev pub doubled : Text → Text
doubled [] = []
doubled (c ∷ cs) = let rest = doubled cs in if c == b'\\' then c ∷ c ∷ rest else c ∷ rest

abbrev pub reason_of : Text → Text
reason_of source = codes "blocked pattern: '" ++ (doubled source ++ codes "'")

-- The loop over the patterns: the first that is found is the reason.
unfoldable pub first_blocked : List (Text × Pattern) → Text → Bool × Text
first_blocked [] stripped = (true, [])
first_blocked ((source, pattern) ∷ patterns) stripped =
    let rest = first_blocked patterns stripped in
    if search_from pattern none stripped then (false, reason_of source) else rest

-- (True, "") for a command that appears safe; else False, with the reason.
unfoldable pub sanitize_command : Text → Bool × Text
sanitize_command command = first_blocked deny_patterns (strip command)
