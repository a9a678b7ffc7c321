-- ===== src/Daemon/Rules/Tests.antt =====
-- Runs of the definitions for the rules.
use hyprland_agent.Prelude.{codes, Text, ◌≡◌, refl, Option, some, List, [], ◌∷◌, ◌++◌}
use hyprland_agent.Schemas.{EventKind, RuleAction, RuleActionKind}
use hyprland_agent.Safety.Sanitize.{strip, lstrip}
use hyprland_agent.Daemon.Rules.{
  comma, split, fields, Effect, run_argv, run_raw, effects_of, exec_action, execute_rule,
}
use hyprland_agent.Daemon.Rules.Fields.{open_window-fields}

open_window-fields_example :
    fields EventKind.open_window
      (split (codes "80a" ++ comma ∷ (codes "2" ++ comma ∷ (codes "foot" ++ comma ∷ codes "a,b"))))
    ≡ (codes "foot", codes "a,b")
open_window-fields_example =
    open_window-fields (codes "80a") (codes "2") (codes "foot") (codes "a,b")
      (refl, (refl, (refl, tt))) (refl, tt) (refl, (refl, (refl, (refl, tt))))

-- Every text is one word here.
abbrev one_word : Text → Option (List Text)
one_word t = some (t ∷ [])

abbrev actions : List RuleAction
actions =
    record { kind = RuleActionKind.run; value = codes " rm" }
    ∷ record { kind = RuleActionKind.run; value = codes "/bin/rm" }
    ∷ []

-- The deny list knows the bare names only.
full_path_spawned : execute_rule one_word actions ≡ Effect.spawned (codes "/bin/rm" ∷ []) ∷ []
unfolding execute_rule exec_action effects_of run_raw run_argv strip lstrip
full_path_spawned = refl
