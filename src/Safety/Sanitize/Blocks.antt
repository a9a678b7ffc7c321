-- ===== src/Safety/Sanitize/Blocks.antt =====
-- A class of commands that are always refused.
use hyprland_agent.Prelude.{
  ℕ, Text, ◌≡◌, refl, ap, ◌∙◌, true, false, Option, none, some, [], ◌∷◌, ◌++◌, All, All-append,
  append_assoc, arith, Bool-cases, inl, inr,
}
use mathlib.Core.List.{reverse, reverse-append, reverse-cons, reverse-reverse}
use hyprland_agent.Safety.Pattern.{is_space, ends, search_from}
use hyprland_agent.Safety.Sanitize.{
  lstrip, strip, backgrounding, pipe_to_agent, first_blocked, sanitize_command,
}

abbrev pub AllSpaces : Text → Type 0
AllSpaces = All (λ c. is_space c ≡ true)

-- Stripping on the left stops before a character that is no space.
lstrip-append :
    (pre : Text) (c : ℕ) (rest : Text)
    → is_space c ≡ false
    → (kept : Text) × (lstrip (pre ++ c ∷ rest) ≡ kept ++ c ∷ rest)
unfolding lstrip
lstrip-append [] c rest h = ([], rw h)
lstrip-append (d ∷ pre) c rest h = elim (Bool-cases (is_space d)) [
  | inl space ↦ let (kept, e) = lstrip-append pre c rest h in (kept, rw space e)
  | inr other ↦ (d ∷ pre, rw other)
]

lstrip-spaces :
    (ws : Text) (c : ℕ) (rest : Text)
    → AllSpaces ws
    → is_space c ≡ false
    → lstrip (ws ++ c ∷ rest) ≡ c ∷ rest
unfolding lstrip
lstrip-spaces [] c rest a h = rw h
lstrip-spaces (d ∷ ws) c rest a h = rw (a.0) (lstrip-spaces ws c rest a.1 h)

reverse-AllSpaces : (ws : Text) → AllSpaces ws → AllSpaces (reverse ws)
reverse-AllSpaces [] a = tt
reverse-AllSpaces (c ∷ ws) a =
    rw (reverse-append (c ∷ []) ws) (
      All-append (λ c. is_space c ≡ true) (reverse ws) (c ∷ []) (reverse-AllSpaces ws a.1)
        (a.0, tt))

strip_end :
    (pre : Text) (c : ℕ) (ws : Text)
    → is_space c ≡ false
    → AllSpaces ws
    → (kept : Text) × (strip (pre ++ c ∷ ws) ≡ kept ++ c ∷ [])
unfolding strip
strip_end pre c ws h a =
    let (kept, e) = lstrip-append pre c ws h in
    let flipped : reverse (kept ++ c ∷ ws) ≡ reverse ws ++ c ∷ reverse kept =
      reverse-append kept (c ∷ ws)
      ∙ ap (λ t. t ++ reverse kept) (reverse-cons c ws)
      ∙ append_assoc (reverse ws) (c ∷ []) (reverse kept) in
    (
      kept,
      ap (λ t. reverse (lstrip (reverse t))) e
          ∙ ap (λ t. reverse (lstrip t)) flipped
          ∙ ap reverse (lstrip-spaces (reverse ws) c (reverse kept) (reverse-AllSpaces ws a) h)
          ∙ reverse-cons c (reverse kept)
          ∙ ap (λ t. t ++ c ∷ []) (reverse-reverse kept),
    )

search-append :
    (before : Option ℕ) (kept : Text) → search_from backgrounding before (kept ++ b'&' ∷ []) ≡ true
unfolding search_from ends
search-append before [] = refl
search-append before (c ∷ kept) = ground (arith, search-append (some c) kept)

-- A command that ends in an ampersand, with or without white space behind it, is refused,
-- whatever stands before.
pub sanitize_command-background :
    (pre ws : Text) → AllSpaces ws → (sanitize_command (pre ++ b'&' ∷ ws)).0 ≡ false
unfolding sanitize_command first_blocked
sanitize_command-background pre ws a =
    let (kept, e) = strip_end pre b'&' ws refl a in
    elim (Bool-cases (search_from pipe_to_agent none (kept ++ b'&' ∷ []))) [
      | inl piped ↦ rw (e, piped)
      | inr clear ↦ rw (e, clear, search-append none kept)
    ]
