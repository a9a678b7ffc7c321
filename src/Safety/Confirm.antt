-- ===== src/Safety/Confirm.antt =====
-- The gate for destructive dispatches: `src/agent/safety/confirm.py`.
use hyprland_agent.Prelude.{
  Text, codes, lower, text_eq, Bool, false, ◌||◌, List, [], ◌∷◌, if◌then◌else◌,
}
use hyprland_agent.Safety.Pattern.{is_space}
use hyprland_agent.Safety.Sanitize.{strip}

-- The characters before the first white space: `text.split()[0]`, on a stripped text.
unfoldable pub first_word : Text → Text
first_word [] = []
first_word (c ∷ cs) = let rest = first_word cs in if is_space c then [] else c ∷ rest

abbrev pub member : Text → List Text → Bool
member t [] = false
member t (s ∷ ss) = text_eq s t || member t ss

abbrev pub destructive_dispatch : List Text
destructive_dispatch =
    codes "killactive" ∷ codes "closewindow" ∷ codes "exit" ∷ codes "forcerendererreload" ∷ []

-- On a blank command the first word is empty, which is not in the list.
unfoldable pub is_destructive_dispatch : Text → Bool
unfolding first_word
is_destructive_dispatch cmd = member (lower (first_word (strip cmd))) destructive_dispatch
