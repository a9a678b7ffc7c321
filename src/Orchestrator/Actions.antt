-- ===== src/Orchestrator/Actions.antt =====
-- `_execute_action` of `src/agent/orchestrator.py`, with the answers of the outside given.
use hyprland_agent.Prelude.{
  ℕ, Text, codes, lower, Bool, true, false, ◌&&◌, Option, none, some, List, [], ◌∷◌, text_key,
  lookup, ltb,
}
use hyprland_agent.Schemas.{
  ActionKind, Action, ActionResult, plain_result, Number, Params, Value, Window,
}
use hyprland_agent.Safety.RateLimit.{RateLimitConfig}
use hyprland_agent.Safety.Confirm.{member}
use hyprland_agent.Orchestrator.Processes.{Process, process_tree_contains}
use hyprland_agent.Orchestrator.Exec.{Error, Reply, Emission, Step, Exec, pure, raise}

-- What the code takes from the language and its libraries: `str`, `float` in nanoseconds, `int`,
-- `repr`, `json.dumps` of an action, and the hash of a screenshot. `none` is an exception.
pub record Builtins : Type 0 where
  pub str : Value → Text
  pub float : Value → Option ℕ
  pub int : Value → Option Number
  pub repr : Text → Text
  pub dumps : Action → Text
  pub phash : Text → Option Text

-- `ctx`, by its run id, and what is used of `app_state`.
pub record AppState : Type 0 where
  pub rate_limit : RateLimitConfig
  pub capture_cap_kb : ℕ

pub record Env : Type 0 where
  pub builtins : Builtins
  pub ctx : Option Text
  pub app_state : Option AppState

pub record Terminal : Type 0 where
  pub code : Number
  pub stdout : Text
  pub stderr : Text
  pub total_bytes : ℕ

-- What the outside answers while one action is executed.
pub record Answers : Type 0 where
  pub stopped : Bool
  pub now : ℕ
  pub active : Reply (Option Window)
  pub processes : List Process
  pub confirmed : Bool
  pub target_exists : Bool
  pub input_sent : Reply Unit
  pub terminal : Reply Terminal
  pub response : Reply Text
  pub content : Reply Text
  pub handled : Reply (Option ActionResult)
  pub screenshot : Option Text

abbrev pub terminal_classes : List Text
terminal_classes =
    codes "foot" ∷ codes "kitty" ∷ codes "alacritty" ∷ codes "wezterm" ∷ codes "ghostty" ∷ []

abbrev pub control_process_markers : List Text
control_process_markers = codes "codex" ∷ codes "claude" ∷ codes "agent" ∷ []

-- The test of `_focused_control_terminal` on the active window.
unfoldable pub is_control_terminal : List Process → Window → Bool
is_control_terminal processes window =
    member (lower window.app_class) terminal_classes
    && process_tree_contains processes window.pid control_process_markers

-- `bool(v)`
abbrev pub truthy : Value → Bool
truthy (Value.null) = false
truthy (Value.flag b) = b
truthy (Value.num (Number.nonneg n)) = ltb 0 n
truthy (Value.num (Number.neg n)) = true
truthy (Value.text []) = false
truthy (Value.text (c ∷ cs)) = true

-- `p.get(key, default)`
abbrev pub get_or : Text → Value → Params → Value
get_or key default params = elim (lookup key params) [ some v ↦ v | none ↦ default ]

-- `text or None`
abbrev pub or_none : Text → Option Text
or_none [] = none
or_none (c ∷ cs) = some (c ∷ cs)

unfoldable pub convert : {A : Type 0} → Option A → Exec A
convert none = raise Error.type_error
convert (some a) = pure a

abbrev pub blocked_result : ActionKind → Text → ActionResult
blocked_result k reason = record (plain_result k) { blocked = some reason }

abbrev pub rejected_result : ActionKind → Text → ActionResult
rejected_result k what = record (plain_result k) { rejected = some what }

abbrev pub stdout_result : ActionKind → Text → ActionResult
stdout_result k out = record (plain_result k) { stdout = some out }

abbrev pub response_result : ActionKind → Text → ActionResult
response_result k response = record (plain_result k) { dispatch_response = some response }

-- `except (FileNotFoundError, PermissionError, NotADirectoryError) as exc`
unfoldable pub catch_file_errors : ActionKind → Exec ActionResult → Exec ActionResult
catch_file_errors k (Reply.failed (Error.file_not_found why), steps) =
    (Reply.ok (blocked_result k why), steps)
catch_file_errors k (Reply.failed (Error.permission why), steps) =
    (Reply.ok (blocked_result k why), steps)
catch_file_errors k (Reply.failed (Error.not_a_directory why), steps) =
    (Reply.ok (blocked_result k why), steps)
catch_file_errors k m = m

-- `except PermissionError as exc`
unfoldable pub catch_permission : ActionKind → Exec ActionResult → Exec ActionResult
catch_permission k (Reply.failed (Error.permission why), steps) =
    (Reply.ok (blocked_result k why), steps)
catch_permission k m = m

-- `await ctx.emit(...)`, where there is a context.
abbrev pub emit : Env → Emission → List Step
emit env e = elim env.ctx [ some run_id ↦ Step.emitted e ∷ [] | none ↦ [] ]
