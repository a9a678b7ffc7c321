-- ===== src/Daemon/Rules.antt =====
-- The rules of `src/agent/daemon/rule_runner.py`: which events they match, and what their actions do.
-- `shlex.split` is given; `none` is its `ValueError`.
pub mod Fields
mod Tests
use hyprland_agent.Prelude.{
  ℕ, Text, codes, lower, Bool, true, false, not, ◌&&◌, ◌||◌, Option, none, some, List, [], ◌∷◌,
  ◌++◌, ◌==◌, text_eq, if◌then◌else◌,
}
use hyprland_agent.Schemas.{
  EventKind, event_value, Event, EventMatch, RuleActionKind, RuleAction, Rule,
}
use hyprland_agent.Safety.Glob.{fnmatch}
use hyprland_agent.Safety.Sanitize.{strip}
use hyprland_agent.Safety.Confirm.{member}

abbrev pub comma : ℕ
comma = b','

-- A character in front of the first part.
abbrev pub add_first : ℕ → List Text → List Text
add_first c [] = (c ∷ []) ∷ []
add_first c (part ∷ parts) = (c ∷ part) ∷ parts

-- `text.split(",")`
unfoldable pub split : Text → List Text
split [] = [] ∷ []
split (c ∷ cs) = let parts = split cs in if c == comma then [] ∷ parts else add_first c parts

-- `",".join(parts)`
unfoldable pub join : List Text → Text
join [] = []
join (part ∷ []) = part
join (part ∷ other ∷ parts) = part ++ comma ∷ join (other ∷ parts)

-- The class and the title that an event carries.
unfoldable pub fields : EventKind → List Text → Text × Text
fields EventKind.open_window (a ∷ b ∷ class ∷ title ∷ more) = (class, join (title ∷ more))
fields EventKind.active_window (class ∷ title ∷ more) = (class, join (title ∷ more))
fields EventKind.close_window (first ∷ more) = (first, [])
fields _ _ = ([], [])

-- `pattern and not fnmatch(...)` is false: no pattern, an empty one, or one that matches.
unfoldable pub passes : Text → Option Text → Bool
passes value none = true
passes value (some []) = true
passes value (some (c ∷ cs)) = fnmatch (lower value) (lower (c ∷ cs))

unfoldable pub match_event : Rule → Event → Bool
match_event rule event =
    let (class, title) = fields event.kind (split event.payload) in
    text_eq (event_value rule.on) (event_value event.kind)
    && (passes class rule.matches.app_class && passes title rule.matches.title)

abbrev pub run_deny : List Text
run_deny =
    codes "rm"
    ∷ codes "rmdir"
    ∷ codes "dd"
    ∷ codes "mkfs"
    ∷ codes "shutdown"
    ∷ codes "reboot"
    ∷ codes "poweroff"
    ∷ codes "halt"
    ∷ codes "init"
    ∷ codes "kill"
    ∷ codes "killall"
    ∷ codes "pkill"
    ∷ codes "sudo"
    ∷ codes "su"
    ∷ codes "doas"
    ∷ []

-- What an action does outside.
pub data Effect : Type 0 where
  logged dispatched notified : Text → Effect
  spawned : List Text → Effect

-- `argv[0] if argv else ""`
abbrev pub first_of : List Text → Text
first_of [] = []
first_of (a ∷ more) = a

unfoldable pub run_argv : Option (List Text) → List Effect
run_argv none = []
run_argv (some argv) = if member (first_of argv) run_deny then [] else Effect.spawned argv ∷ []

unfoldable pub run_raw : (Text → Option (List Text)) → Text → List Effect
run_raw shlex [] = []
run_raw shlex (c ∷ cs) = run_argv (shlex (c ∷ cs))

unfoldable pub effects_of : (Text → Option (List Text)) → RuleActionKind → Text → List Effect
effects_of shlex RuleActionKind.log v = Effect.logged v ∷ []
effects_of shlex RuleActionKind.dispatch v = Effect.dispatched v ∷ []
effects_of shlex RuleActionKind.notify v = Effect.notified v ∷ []
effects_of shlex RuleActionKind.run v = run_raw shlex (strip v)

unfoldable pub exec_action : (Text → Option (List Text)) → RuleAction → List Effect
exec_action shlex action = effects_of shlex action.kind action.value

-- Each action in its own `try`: a failure of one does not keep the next from its turn.
unfoldable pub execute_rule : (Text → Option (List Text)) → List RuleAction → List Effect
execute_rule shlex [] = []
execute_rule shlex (action ∷ actions) = exec_action shlex action ++ execute_rule shlex actions
