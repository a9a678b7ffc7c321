-- ===== src/Brain/Claude/Tests.antt =====
-- Runs of `src/agent/brain`: conversations and tool calls, and the theorems about them at inputs.
use hyprland_agent.Prelude.{
  ℕ, zero, suc, ◌≤◌, Text, codes, ◌≡◌, refl, Bool, true, false, none, some, List, [], ◌∷◌, length,
  All, Memᴰ, text_key,
}
use hyprland_agent.Schemas.{ActionKind, Action, Number, Value, Params, kind_value}
use hyprland_agent.Safety.RateLimit.{init}
use hyprland_agent.Orchestrator.Exec.{Reply, need}
use hyprland_agent.Orchestrator.Actions.{Env, Answers}
use hyprland_agent.Orchestrator.Perform.{Gate, execute_action}
use hyprland_agent.Orchestrator.Keys.{HasKeys}
use hyprland_agent.Brain.ActionMap.{
  and_then, remove_suffix, verb_actions, computer_actions, act, move_to, click_with,
}
use hyprland_agent.Brain.Tools.{Tool, custom_tools, tools}
use hyprland_agent.Brain.Calls.{Desk, handle_custom, call_tool, queue_command}
use hyprland_agent.Brain.Calls.Runs.{handle_custom-execute_action}
use hyprland_agent.Brain.Calls.Offered.{call_tool-execute_action}
use hyprland_agent.Brain.Claude.{
  Response, ResponseBlock, Handled, handle_block, handle_blocks, ends, decide, result_of,
}
use hyprland_agent.Brain.Claude.Turns.{turns, gather, decide-turns}
use hyprland_agent.Brain.Claude.Roles.{alternates, decide-Alternates}

abbrev desk : Desk
desk = record {
  int = λ v. elim v [ Value.num n ↦ some n | _ ↦ none ];
  show = λ n. codes "0";
  repr = λ t. t;
  clients = Reply.ok [];
  png_b64 = Reply.ok (codes "iVBO");
}

abbrev env : Env
env = record {
  builtins = record {
    str = λ v. codes "0x1";
    float = λ v. some 0;
    int = λ v. some (Number.nonneg 0);
    repr = λ t. t;
    dumps = λ action. kind_value action.kind;
    phash = λ png. none;
  };
  ctx = none;
  app_state = none;
}

abbrev answers : Answers
answers = record {
  stopped = false;
  now = 5;
  active = Reply.ok none;
  processes = [];
  confirmed = true;
  target_exists = false;
  input_sent = Reply.ok tt;
  terminal =
      Reply.ok (record { code = Number.nonneg 0; stdout = []; stderr = []; total_bytes = 0 });
  response = Reply.ok (codes "ok");
  content = Reply.ok (codes "text");
  handled = Reply.ok none;
  screenshot = none;
}

abbrev gate : Gate
unfolding init
gate = record { limiter = init none; configured = false }

abbrev input : Params
input = (codes "command", Value.text (codes "ls")) ∷ []

abbrev command_tool : Tool
command_tool = elim custom_tools [
  | a ∷ b ∷ rest ↦ b
  | _ ↦ record { name = []; properties = []; required = [] }
]

handle_custom-execute_action_example :
    (said : Text) × (acts : List Action) × (handle_custom desk (codes "terminal_command") input
      ≡ Reply.ok (said, acts))
    × All (λ a. HasKeys (execute_action env answers gate a).1) acts
handle_custom-execute_action_example =
    handle_custom-execute_action desk [] env answers gate command_tool input refl
      (refl, refl, refl, refl, refl, refl) (Memᴰ.tail (Memᴰ.head refl)) refl

abbrev click : Params
click = (codes "x", Value.num (Number.nonneg 10)) ∷ (codes "y", Value.num (Number.nonneg 20)) ∷ []

click_run :
    computer_actions desk.int (codes "left_click") (record {
      x = Value.num (Number.nonneg 10);
      y = Value.num (Number.nonneg 20);
      text = Value.null;
      combo = Value.null;
      direction = Value.null;
      amount = Value.null;
      scale_x = 2;
      scale_y = 2;
    })
    ≡ Reply.ok (move_to (Number.nonneg 20) (Number.nonneg 40) ∷ click_with (codes "left") ∷ [])
unfolding computer_actions and_then verb_actions remove_suffix
click_run = refl

abbrev click_tool : Tool
click_tool = elim tools [
  | a ∷ b ∷ rest ↦ b
  | _ ↦ record { name = []; properties = []; required = [] }
]

call_tool-execute_action_example :
    (said : Text) × (acts : List Action) × (call_tool desk (codes "left_click") click 2
      ≡ Reply.ok (said, acts))
    × All (λ a. HasKeys (execute_action env answers gate a).1) acts
call_tool-execute_action_example =
    call_tool-execute_action desk (codes "iVBO") [] 2 env answers gate click_tool click (λ n. refl)
      refl refl (refl, refl, refl, refl, refl, refl) (Memᴰ.tail (Memᴰ.head refl)) refl refl refl
      refl

-- The model runs a command and then says that it is done.
abbrev script : ℕ → Response
script zero = record {
  content = ResponseBlock.tool_use (codes "t1") (codes "terminal_command") input none ∷ [];
  stop_reason = codes "tool_use";
}
script (suc i) = record {
  content = ResponseBlock.said (codes "done") ∷ [];
  stop_reason = codes "end_turn";
}

abbrev made : ℕ → Handled
made zero = (
  act ActionKind.terminal_command input ∷ [],
  result_of (codes "t1") (codes "terminal command queued") ∷ [],
)
made (suc i) = ([], [])

works : (i : ℕ) → handle_blocks desk (script i).content ≡ Reply.ok (made i)
unfolding handle_blocks handle_block handle_custom queue_command and_then need
works zero = refl
works (suc i) = refl

decide-turns_example :
    let is_last : ℕ → Bool = λ i. ends (script i) (made i).1 in
    let d = decide desk (λ i sent. Reply.ok (script i)) none [] (codes "list the files") in
    (length d.1 ≡ turns 20 is_last 0)
    × (turns 20 is_last 0 ≤ 20)
    × (d.0 ≡ Reply.ok (gather (turns 20 is_last 0) (λ i. (made i).0) 0))
decide-turns_example = decide-turns desk none script made [] (codes "list the files") works

two_turns : turns 20 (λ i. ends (script i) (made i).1) 0 ≡ 2
unfolding turns
two_turns = refl

decide-Alternates_example :
    All
      (λ sent. alternates true sent ≡ true)
      (decide desk (λ i sent. Reply.ok (script i)) none [] (codes "list the files")).1
decide-Alternates_example =
    decide-Alternates desk (λ i sent. Reply.ok (script i)) none [] (codes "list the files")
