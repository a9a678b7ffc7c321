-- ===== src/Schemas.antt =====
-- The data of the program: `src/agent/schemas.py`.
-- A text is the list of its code points, an identifier too; a time is a number of nanoseconds.
use hyprland_agent.Prelude.{ℕ, Text, codes, Bool, Option, none, List, Dict, is_some}

pub data ActionKind : Type 0 where
  screenshot terminal_command type_text key mouse_move click scroll focus_window : ActionKind
  dispatch read_file write_file list_dir notify update_status speak : ActionKind
  clipboard_read clipboard_write : ActionKind

-- `kind.value`
abbrev pub kind_value : ActionKind → Text
kind_value ActionKind.screenshot = codes "screenshot"
kind_value ActionKind.terminal_command = codes "terminal_command"
kind_value ActionKind.type_text = codes "type_text"
kind_value ActionKind.key = codes "key"
kind_value ActionKind.mouse_move = codes "mouse_move"
kind_value ActionKind.click = codes "click"
kind_value ActionKind.scroll = codes "scroll"
kind_value ActionKind.focus_window = codes "focus_window"
kind_value ActionKind.dispatch = codes "dispatch"
kind_value ActionKind.read_file = codes "read_file"
kind_value ActionKind.write_file = codes "write_file"
kind_value ActionKind.list_dir = codes "list_dir"
kind_value ActionKind.notify = codes "notify"
kind_value ActionKind.update_status = codes "update_status"
kind_value ActionKind.speak = codes "speak"
kind_value ActionKind.clipboard_read = codes "clipboard_read"
kind_value ActionKind.clipboard_write = codes "clipboard_write"

-- A whole number of either sign: `neg n` is -(n + 1).
pub data Number : Type 0 where
  nonneg : ℕ → Number
  neg : ℕ → Number

-- The values that the parameters of an action hold.
pub data Value : Type 0 where
  null : Value
  flag : Bool → Value
  num : Number → Value
  text : Text → Value

abbrev pub Params : Type 0
Params = Dict Text Value

pub record Action : Type 0 where
  pub kind : ActionKind
  pub params : Params

pub record Window : Type 0 where
  pub address : Text
  pub title : Text
  pub app_class : Text
  pub pid : ℕ

pub record ActionResult : Type 0 where
  pub kind : ActionKind
  pub dispatch_response : Option Text
  pub stdout : Option Text
  pub stderr : Option Text
  pub returncode : Option Number
  pub blocked : Option Text
  pub rejected : Option Text
  pub truncated : Option Bool
  pub pre_hash : Option Text
  pub post_hash : Option Text

-- `ActionResult(kind=k)`: every other field is `None`.
abbrev pub plain_result : ActionKind → ActionResult
plain_result k = record {
  kind = k;
  dispatch_response = none;
  stdout = none;
  stderr = none;
  returncode = none;
  blocked = none;
  rejected = none;
  truncated = none;
  pre_hash = none;
  post_hash = none;
}

abbrev pub is_blocked : ActionResult → Bool
is_blocked r = is_some r.blocked

abbrev pub is_rejected : ActionResult → Bool
is_rejected r = is_some r.rejected

pub data EventKind : Type 0 where
  workspace active_window open_window close_window move_window : EventKind
  focused_mon urgent other : EventKind

abbrev pub event_value : EventKind → Text
event_value EventKind.workspace = codes "workspace"
event_value EventKind.active_window = codes "activewindow"
event_value EventKind.open_window = codes "openwindow"
event_value EventKind.close_window = codes "closewindow"
event_value EventKind.move_window = codes "movewindow"
event_value EventKind.focused_mon = codes "focusedmon"
event_value EventKind.urgent = codes "urgent"
event_value EventKind.other = codes "other"

-- The payload is the field `data`.
pub record Event : Type 0 where
  pub kind : EventKind
  pub payload : Text
  pub raw : Text

pub record EventMatch : Type 0 where
  pub app_class : Option Text
  pub title : Option Text

pub data RuleActionKind : Type 0 where
  dispatch log notify run : RuleActionKind

pub record RuleAction : Type 0 where
  pub kind : RuleActionKind
  pub value : Text

pub record Rule : Type 0 where
  pub on : EventKind
  pub matches : EventMatch
  pub actions : List RuleAction

pub data RunStatus : Type 0 where
  running completed errored aborted : RunStatus

pub data RunKind : Type 0 where
  run plan : RunKind

pub record RunEventRecord : Type 0 where
  pub seq : ℕ
  pub ts : ℕ
  pub kind : Text
  pub payload : Params

pub record RunSummary : Type 0 where
  pub run_id : Text
  pub kind : RunKind
  pub task : Text
  pub brain : Text
  pub status : RunStatus
  pub started_at : ℕ
  pub ended_at : Option ℕ
  pub error : Option Text

-- `RunRecord` extends `RunSummary` by the events.
pub record RunRecord : Type 0 where
  pub summary : RunSummary
  pub events : List RunEventRecord
