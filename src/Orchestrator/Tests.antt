-- ===== src/Orchestrator/Tests.antt =====
-- Runs of the definitions for `src/agent/orchestrator.py`.
use hyprland_agent.Prelude.{
  ℕ, codes, ◌≡◌, refl, ◌+◌, String, ◌↔◌, ◌⊎◌, Bool, true, false, none, some, List, [], ◌∷◌, All,
  length, text_key,
}
use hyprland_agent.Schemas.{ActionKind, kind_value, Action, Number, Value, Window}
use hyprland_agent.Safety.RateLimit.{init, check}
use hyprland_agent.Orchestrator.Processes.{
  Process, process_tree_contains, search_tree, children_of, details_of, some_marker, push_all,
  is_in,
}
use hyprland_agent.Orchestrator.Exec.{Reply}
use hyprland_agent.Orchestrator.Actions.{
  Builtins, Env, Answers, control_process_markers, blocked_result,
}
use hyprland_agent.Orchestrator.Perform.{Gate, configure, execute_action}
use hyprland_agent.Orchestrator.Permitted.{Permitted}
use hyprland_agent.Orchestrator.Handlers.{execute_action-Permitted}
use hyprland_agent.Orchestrator.Tree.{Reaches, process_tree_contains-Found}
use hyprland_agent.Orchestrator.Run.{Session, run}
use hyprland_agent.Orchestrator.Guarded.{IsGuarded, run-IsGuarded}

abbrev builtins : Builtins
builtins = record {
  str = λ v. codes "0x1";
  float = λ v. some 0;
  int = λ v. some (Number.nonneg 0);
  repr = λ t. t;
  dumps = λ action. kind_value action.kind;
  phash = λ png. none;
}

abbrev env : Env
env = record { builtins = builtins; ctx = some (codes "r1"); app_state = none }

-- An agent runs in the terminal with the process 10.
abbrev table : List Process
table =
    record { pid = 10; ppid = 1; details = codes "10 foot" }
    ∷ record { pid = 11; ppid = 10; details = codes "11 bash" }
    ∷ record { pid = 12; ppid = 11; details = codes "12 claude" }
    ∷ []

abbrev window_of : String → Window
window_of class = record {
  address = codes "0x1";
  title = codes "t";
  app_class = codes class;
  pid = 10;
}

abbrev answers_at : String → Answers
answers_at class = record {
  stopped = false;
  now = 5;
  active = Reply.ok (some (window_of class));
  processes = table;
  confirmed = false;
  target_exists = true;
  input_sent = Reply.ok tt;
  terminal =
      Reply.ok
        (record { code = Number.nonneg 0; stdout = codes "out"; stderr = []; total_bytes = 3 });
  response = Reply.ok (codes "ok");
  content = Reply.ok (codes "text");
  handled = Reply.ok none;
  screenshot = none;
}

abbrev gate : Gate
unfolding init
gate = record { limiter = init none; configured = false }

abbrev type_hi : Action
type_hi = record {
  kind = ActionKind.type_text;
  params = (codes "text", Value.text (codes "hi")) ∷ [];
}

tree_found : process_tree_contains table 10 control_process_markers ≡ true
unfolding process_tree_contains search_tree children_of details_of some_marker push_all is_in
tree_found = refl

process_tree_contains-Found_example :
    ((answer : Bool) × (search_tree (2 + length table) table control_process_markers (10 ∷ []) []
        ≡ some answer))
    × ((process_tree_contains table 10 control_process_markers ≡ true) ↔ (
        (i : ℕ) × Reaches table 10 i
        × (some_marker control_process_markers (details_of i table) ≡ true)))
process_tree_contains-Found_example = process_tree_contains-Found table control_process_markers 10

execute_action-Permitted_example :
    let (gate', m) = execute_action env (answers_at "foot") gate type_hi in
    All (Permitted (answers_at "foot")) m.1
    × (((check (configure env gate).limiter (kind_value ActionKind.type_text) 5).1 ≡ true)
        ⊎ ((m.0 ≡ Reply.ok (blocked_result ActionKind.type_text (codes "rate_limited")))
            × (m.1 ≡ [])))
execute_action-Permitted_example = execute_action-Permitted env (answers_at "foot") gate type_hi

abbrev session : Session
session = record {
  active = Reply.ok (some (window_of "kitty"));
  rules = record { class = some (codes "kitty"); title = none } ∷ [];
  misses = [];
  screenshot = Reply.ok [];
  monitor = Reply.ok none;
  clients = Reply.ok [];
  stopped_before = false;
  stopped_after = false;
  decide = λ screen task. Reply.ok (type_hi ∷ []);
  answers = λ i. answers_at "firefox";
}

run-IsGuarded_example : IsGuarded env session (codes "hi") (run env gate session (codes "hi")).1.1
run-IsGuarded_example = run-IsGuarded env session (codes "hi") gate
