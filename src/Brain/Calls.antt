-- ===== src/Brain/Calls.antt =====
-- What a tool call of the model does: `_handle_custom` and `_computer_action_to_actions` of
-- `src/agent/brain/claude.py`, `_call_tool` of `src/agent/brain/openai_brain.py`.
pub mod Runs
pub mod Verbs
pub mod Offered
use hyprland_agent.Prelude.{
  ℕ, suc, Text, codes, text_eq, Bool, true, false, ◌&&◌, Option, none, some, List, [], ◌∷◌, ◌++◌,
  map, text_key, lookup, contains, if◌then◌else◌,
}
use hyprland_agent.Schemas.{ActionKind, Action, Number, Value, Params, Window}
use hyprland_agent.Orchestrator.Exec.{Error, Reply, need}
use hyprland_agent.Orchestrator.Actions.{get_or}
use hyprland_agent.Brain.ActionMap.{and_then, VerbArgs, scaled, act, computer_actions}

-- A window with its geometry, as `hypr.clients()` lists it.
pub record Placed : Type 0 where
  pub window : Window
  pub x : Number
  pub y : Number
  pub w : Number
  pub h : Number

-- What the calls use of the language and of the outside: `int`, `str` and `repr`, what
-- `hypr.clients()` and the screenshot of `screen.for_vision` in base 64 give.
pub record Desk : Type 0 where
  pub int : Value → Option Number
  pub show : Number → Text
  pub repr : Text → Text
  pub clients : Reply (List Placed)
  pub png_b64 : Reply Text

-- The text for the model and the actions.
abbrev pub Called : Type 0
Called = Text × List Action

-- `"\n".join(lines) or default`
unfoldable pub join_lines : List Text → Text
join_lines [] = []
join_lines (line ∷ []) = line
join_lines (line ∷ next ∷ lines) = line ++ codes "\n" ++ join_lines (next ∷ lines)

abbrev pub text_or : Text → Text → Text
text_or default [] = default
text_or default (c ∷ cs) = c ∷ cs

-- A call whose action takes one value of the input under a key of its own.
unfoldable pub queue : Text → ActionKind → Text → Text → Params → Reply Called
queue said k key source inp =
    and_then (need source inp).0 (λ v. Reply.ok (said, act k ((key, v) ∷ []) ∷ []))

-- A call whose action takes the whole input.
abbrev pub hand_on : Text → ActionKind → Params → Reply Called
hand_on said k inp = Reply.ok (said, act k inp ∷ [])

-- `if "hold_s" in inp: params["hold_s"] = inp["hold_s"]`
abbrev pub with_hold : Option Value → Params
with_hold (some hold) = (codes "hold_s", hold) ∷ []
with_hold none = []

unfoldable pub queue_command : Params → Reply Called
queue_command inp = and_then (need (codes "command") inp).0 (λ command.
    let params = (codes "command", command) ∷ with_hold (lookup (codes "hold_s") inp) in
    Reply.ok (codes "terminal command queued", act ActionKind.terminal_command params ∷ []))

module _ (desk : Desk) where
  -- `f"{w.address} [{w.app_class}] {w.title!r}"`
  abbrev pub window_line : Placed → Text
  window_line p =
      p.window.address ++ codes " [" ++ p.window.app_class ++ codes "] " ++ desk.repr p.window.title

  -- The same with ` at ({w.x},{w.y}) {w.w}x{w.h}`
  abbrev pub placed_line : Placed → Text
  placed_line p =
      window_line p
      ++ codes " at ("
      ++ desk.show p.x
      ++ codes ","
      ++ desk.show p.y
      ++ codes ") "
      ++ desk.show p.w
      ++ codes "x"
      ++ desk.show p.h

  unfoldable pub list_windows : (Placed → Text) → Text → Reply Called
  list_windows line default =
      and_then desk.clients (λ wins. Reply.ok (text_or default (join_lines (map line wins)), []))

  -- The tests on the name that both brains make in the same order, from `read_file` on.
  unfoldable pub call_file_tool : Text → Params → Reply Called
  call_file_tool name inp =
      if text_eq name (codes "read_file")
      then hand_on (codes "Reading file...") ActionKind.read_file inp
      else if text_eq name (codes "write_file")
      then hand_on (codes "Writing file...") ActionKind.write_file inp
      else if text_eq name (codes "list_dir")
      then hand_on (codes "Listing directory...") ActionKind.list_dir inp
      else if text_eq name (codes "clipboard_read")
      then hand_on (codes "Reading clipboard...") ActionKind.clipboard_read []
      else if text_eq name (codes "clipboard_write")
      then queue (codes "Writing clipboard...") ActionKind.clipboard_write (codes "text")
          (codes "text") inp
      else Reply.ok (codes "unknown tool", [])

  unfoldable pub handle_custom : Text → Params → Reply Called
  handle_custom name inp =
      if text_eq name (codes "list_windows")
      then list_windows placed_line (codes "(no windows)")
      else if text_eq name (codes "terminal_command")
      then queue_command inp
      else if text_eq name (codes "focus_window")
      then queue (codes "focus queued") ActionKind.focus_window (codes "address") (codes "address")
          inp
      else if text_eq name (codes "dispatch_hypr")
      then queue (codes "dispatch queued") ActionKind.dispatch (codes "cmd") (codes "cmd") inp
      else call_file_tool name inp

  unfoldable pub call_other : Text → Params → Reply Called
  call_other name args =
      if text_eq name (codes "terminal_command")
      then queue_command args
      else if text_eq name (codes "focus_window")
      then queue (codes "focus queued") ActionKind.focus_window (codes "address") (codes "address")
          args
      else if text_eq name (codes "list_windows")
      then list_windows window_line (codes "(none)")
      else if text_eq name (codes "dispatch_hypr")
      then queue (codes "dispatch queued") ActionKind.dispatch (codes "cmd") (codes "cmd") args
      else call_file_tool name args

  abbrev pub verb_args : ℕ → Params → VerbArgs
  verb_args scale args = record {
    x = get_or (codes "x") (Value.num (Number.nonneg 0)) args;
    y = get_or (codes "y") (Value.num (Number.nonneg 0)) args;
    text = get_or (codes "text") (Value.text []) args;
    combo = get_or (codes "combo") (Value.text []) args;
    direction = get_or (codes "direction") (Value.text (codes "down")) args;
    amount = get_or (codes "amount") (Value.num (Number.nonneg 3)) args;
    scale_x = scale;
    scale_y = scale;
  }

  -- The label of the actions, with the coordinates where the arguments have both.
  unfoldable pub label : Text → ℕ → Option Value → Option Value → Reply Text
  label name scale (some x) (some y) = and_then (scaled scale x) (λ sx.
      and_then (scaled scale y) (λ sy.
        Reply.ok (name ++ codes " (" ++ desk.show sx ++ codes "," ++ desk.show sy ++ codes ")")))
  label name scale none y = Reply.ok name
  label name scale (some x) none = Reply.ok name

  -- `if acts:`
  unfoldable pub after_verbs : Text → Params → ℕ → List Action → Reply Called
  after_verbs name args scale [] = call_other name args
  after_verbs name args scale (a ∷ acts) =
      and_then (label name scale (lookup (codes "x") args) (lookup (codes "y") args))
        (λ said. Reply.ok (said, a ∷ acts))

  unfoldable pub call_tool : Text → Params → ℕ → Reply Called
  call_tool name args scale =
      if text_eq name (codes "screenshot")
      then and_then desk.png_b64 (λ png.
        Reply.ok (codes "data:image/png;base64," ++ png, act ActionKind.screenshot [] ∷ []))
      else and_then (computer_actions desk.int name (verb_args scale args))
          (after_verbs name args scale)

  -- `coord[0]` and `coord[1]`; the coordinate is [0, 0] where the input has none.
  unfoldable pub at_coordinate : Option (List Value) → Reply (Value × Value)
  at_coordinate none = Reply.ok (Value.num (Number.nonneg 0), Value.num (Number.nonneg 0))
  at_coordinate (some (x ∷ y ∷ more)) = Reply.ok (x, y)
  at_coordinate (some (x ∷ [])) = Reply.failed (Error.other (codes "list index out of range"))
  at_coordinate (some []) = Reply.failed (Error.other (codes "list index out of range"))

  -- A value that is no text is no verb.
  abbrev pub as_verb : Value → Text
  as_verb (Value.text t) = t
  as_verb (Value.null) = []
  as_verb (Value.flag b) = []
  as_verb (Value.num n) = []

  unfoldable pub computer_action_to_actions : Params → Option (List Value) → ℕ → Reply (List Action)
  computer_action_to_actions action coordinate scale =
      and_then (at_coordinate coordinate) (λ (x, y).
        computer_actions desk.int (as_verb (get_or (codes "action") (Value.text []) action))
          (record {
            x = x;
            y = y;
            text = get_or (codes "text") (Value.text []) action;
            combo = get_or (codes "key") (Value.text []) action;
            direction = get_or (codes "direction") (Value.text (codes "down")) action;
            amount = get_or (codes "amount") (Value.num (Number.nonneg 3)) action;
            scale_x = scale;
            scale_y = scale;
          }))
