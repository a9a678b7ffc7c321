-- ===== src/Prelude/Texts.antt =====
-- Texts as lists of code points, and the text operations of the language that the program uses.
use Prim.Native.Nat.{ℕ, ◌+◌}
use mathlib.Core.Path.{◌≡◌, refl, ap₂}
use native.Mathlib.Omega.{arith}
use Prim.Native.Char.{code}
use Prim.Native.String.{String}
use mathlib.Core.Bool.{Bool, true, false, ◌&&◌}
use mathlib.Core.List.{List, [], ◌∷◌, map}
use hyprland_agent.Prelude.Tests.{leb, ◌==◌, if◌then◌else◌}

-- A text is the list of its code points.
abbrev pub Text : Type 0
Text = List ℕ

abbrev pub codes : String → Text
codes String.[] = []
codes (String.◌∷◌ c s) = code c ∷ codes s

-- `a == b` on texts.
abbrev pub text_eq : Text → Text → Bool
text_eq [] [] = true
text_eq [] (d ∷ ds) = false
text_eq (c ∷ cs) [] = false
text_eq (c ∷ cs) (d ∷ ds) = (c == d) && text_eq cs ds

-- `s.lower()` on ASCII letters.
abbrev pub lower : Text → Text
lower = map (λ c. if leb b'A' c && leb c b'Z' then c + 32 else c)

pub eq_of-text_eq : (s t : Text) → text_eq s t ≡ true → s ≡ t
eq_of-text_eq [] [] h = refl
eq_of-text_eq [] (d ∷ ds) h = cc
eq_of-text_eq (c ∷ cs) [] h = cc
eq_of-text_eq (c ∷ cs) (d ∷ ds) h = ap₂ ◌∷◌ (ground arith) (eq_of-text_eq cs ds (ground arith))

pub text_eq_refl : (s : Text) → text_eq s s ≡ true
text_eq_refl [] = refl
text_eq_refl (c ∷ cs) = ground (arith, text_eq_refl cs)
