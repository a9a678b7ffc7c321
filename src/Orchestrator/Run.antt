-- ===== src/Orchestrator/Run.antt =====
-- `_build_state`, `plan` and `run` of `src/agent/orchestrator.py`.
use hyprland_agent.Prelude.{
  ℕ, ◌+◌, Text, Bool, true, false, ◌||◌, Option, none, some, List, [], ◌∷◌, ◌++◌, length,
  if◌then◌else◌,
}
use hyprland_agent.Schemas.{ActionKind, Action, ActionResult, Window}
use hyprland_agent.Safety.Allowlist.{AllowRule, Misses, is_allowed}
use hyprland_agent.Awareness.{
  LoopDetector, new_detector, observe, needs, annotate, ActionEntry, record_entry,
}
use hyprland_agent.Orchestrator.Exec.{Error, Reply, Emission, Step, Exec, pure, raise}
use hyprland_agent.Orchestrator.Actions.{AppState, Env, Answers, emit}
use hyprland_agent.Orchestrator.Perform.{Gate, execute_action}

pub record ScreenState : Type 0 where
  pub screenshot_png : Text
  pub width : ℕ
  pub height : ℕ
  pub active_window : Option Window
  pub windows : List Window

-- What the outside answers in a run: the stop flag is read before the brain decides and after.
pub record Session : Type 0 where
  pub active : Reply (Option Window)
  pub rules : List AllowRule
  pub misses : Misses
  pub screenshot : Reply Text
  pub monitor : Reply (Option (ℕ × ℕ))
  pub clients : Reply (List Window)
  pub stopped_before : Bool
  pub stopped_after : Bool
  pub decide : ScreenState → Text → Reply (List Action)
  pub answers : ℕ → Answers

-- What a run keeps besides its steps.
pub record LoopState : Type 0 where
  pub gate : Gate
  pub working : List ActionEntry
  pub detector : LoopDetector

-- `if text`, for a text that may be `None`
abbrev pub has_text : Option Text → Bool
has_text none = false
has_text (some []) = false
has_text (some (c ∷ cs)) = true

abbrev pub has_content : ActionResult → Bool
has_content r =
    has_text r.dispatch_response
    || has_text r.blocked
    || has_text r.rejected
    || has_text r.stdout
    || has_text r.stderr
    || has_text r.pre_hash

-- The hashes before and after, where both could be computed.
abbrev pub with_hashes : Option Text → Option Text → ActionResult → ActionResult
with_hashes (some before) (some after) result = annotate result before after
with_hashes (some before) none result = result
with_hashes none after result = result

abbrev pub hash_of : Env → Option Text → Option Text
hash_of env none = none
hash_of env (some png) = env.builtins.phash png

abbrev pub verified : Env → Text → Answers → ActionKind → ActionResult → ActionResult
verified env png answers kind result =
    if needs kind
    then with_hashes (hash_of env (some png)) (hash_of env answers.screenshot) result
    else result

-- What is recorded of an action, and whether it is stuck.
unfoldable pub note_action : Env → LoopState → Gate → Action → LoopState × Bool
note_action env s gate action =
    let (detector, stuck) = observe s.detector (env.builtins.dumps action) in
    (
      record {
        gate = gate;
        working =
            record_entry s.working
              (record { kind = action.kind; params = action.params; result_summary = none });
        detector = detector;
      },
      stuck,
    )

abbrev pub shown_result : Env → ActionResult → List Step
shown_result env result =
    if has_content result then emit env (Emission.action_result result) else []

-- The end of one turn, from the result on: what is shown of it, and the next turn if not stuck.
unfoldable pub finish_turn :
    Env
    → Text
    → Answers
    → LoopState
    → Action
    → Gate
    → ActionResult
    → (LoopState → LoopState × Exec Unit)
    → LoopState × Exec Unit
finish_turn env png answers s action gate plain next =
    let shown = shown_result env (verified env png answers action.kind plain) in
    let s' = (note_action env s gate action).0 in
    if (note_action env s gate action).1
    then (
      s',
      (Reply.failed (Error.stuck_error action.kind), shown ++ emit env (Emission.stuck action)),
    )
    else ((next s').0, ((next s').1.0, shown ++ (next s').1.1))

-- What follows `_execute_action`: an exception leaves the loop.
unfoldable pub after_execution :
    Env
    → Text
    → Answers
    → LoopState
    → Action
    → Gate
    → Reply ActionResult
    → (LoopState → LoopState × Exec Unit)
    → LoopState × Exec Unit
after_execution env png answers s action gate (Reply.failed e) next =
    (record s { gate = gate }, (Reply.failed e, []))
after_execution env png answers s action gate (Reply.ok plain) next =
    finish_turn env png answers s action gate plain next

-- One turn of the loop: the stop flag, the action, and what follows.
unfoldable pub turn :
    Env
    → Text
    → Answers
    → LoopState
    → Action
    → (LoopState → LoopState × Exec Unit)
    → LoopState × Exec Unit
turn env png answers s action next =
    if answers.stopped
    then (s, (Reply.ok tt, emit env Emission.killswitch))
    else let (gate, m) = execute_action env answers s.gate action in
      let (s', rest) = after_execution env png answers s action gate m.0 next in
      (s', (rest.0, emit env (Emission.action action) ++ (m.1 ++ rest.1)))

-- The `for action in actions` loop; `i` counts the actions before.
unfoldable pub run_actions :
    Env → Text → (ℕ → Answers) → ℕ → LoopState → List Action → LoopState × Exec Unit
run_actions env png answers i s [] = (s, (Reply.ok tt, emit env Emission.done))
run_actions env png answers i s (action ∷ actions) =
    turn env png (answers i) s action (λ s'. run_actions env png answers (i + 1) s' actions)

-- `mon.width if mon else 1920`, and the same for the height.
abbrev pub size_of : Option (ℕ × ℕ) → ℕ × ℕ
size_of (some size) = size
size_of none = (1920, 1080)

abbrev pub blank_state : Window → ScreenState
blank_state w = record {
  screenshot_png = [];
  width = 0;
  height = 0;
  active_window = some w;
  windows = [];
}

-- What `screen.full`, `hypr.active_monitor` and `hypr.clients` return, in this order.
unfoldable pub look_with :
    Env
    → Option Window
    → Reply Text
    → Reply (Option (ℕ × ℕ))
    → Reply (List Window)
    → Exec (ScreenState × Bool)
look_with env active (Reply.failed e) monitor clients = raise e
look_with env active (Reply.ok png) (Reply.failed e) clients = raise e
look_with env active (Reply.ok png) (Reply.ok mon) (Reply.failed e) = raise e
look_with env active (Reply.ok png) (Reply.ok mon) (Reply.ok wins) =
    let screen : ScreenState = record {
      screenshot_png = png;
      width = (size_of mon).0;
      height = (size_of mon).1;
      active_window = active;
      windows = wins;
    } in
    (Reply.ok (screen, true), emit env (Emission.state_seen active))

abbrev pub look : Env → Session → Option Window → Exec (ScreenState × Bool)
look env session active = look_with env active session.screenshot session.monitor session.clients

-- Behind `start`; the misses of the allowlist are returned with it.
unfoldable pub inspect : Env → Session → Reply (Option Window) → Misses × Exec (ScreenState × Bool)
inspect env session (Reply.failed e) = (session.misses, raise e)
inspect env session (Reply.ok none) = (session.misses, look env session none)
inspect env session (Reply.ok (some window)) =
    let (allowed, misses) = is_allowed session.rules window session.misses in
    if allowed
    then (misses, look env session (some window))
    else (misses, (Reply.ok (blank_state window, false), emit env (Emission.blocked_window window)))

-- `killswitch.ensure_disarmed` comes first and removes the stop flag.
unfoldable pub build_state : Env → Session → Text → Misses × Exec (ScreenState × Bool)
build_state env session task =
    let (misses, m) = inspect env session session.active in
    (misses, (m.0, Step.disarmed ∷ (emit env (Emission.start task) ++ m.1)))

abbrev pub fresh_loop : Gate → LoopState
fresh_loop gate = record { gate = gate; working = []; detector = new_detector 6 3 }

-- `_assemble_brain_context`: with an application state the memory is asked. It raises nothing, and
-- what it finds is part of `decide`.
abbrev pub assemble : Option AppState → Text → List Step
assemble none task = []
assemble (some state) task = Step.recalled task ∷ []

-- What follows the answer of the brain.
unfoldable pub run_decided :
    Env → Gate → Session → ScreenState → Reply (List Action) → LoopState × Exec Unit
run_decided env gate session screen (Reply.failed e) = (fresh_loop gate, raise e)
run_decided env gate session screen (Reply.ok actions) =
    if session.stopped_after
    then (fresh_loop gate, (Reply.ok tt, emit env Emission.killswitch))
    else let (s, m) =
        run_actions env screen.screenshot_png session.answers 0 (fresh_loop gate) actions in
      (s, (m.0, emit env (Emission.actions (length actions)) ++ m.1))

-- From the end of `_build_state` on.
unfoldable pub continue_run :
    Env → Gate → Session → Text → Reply (ScreenState × Bool) → LoopState × Exec Unit
continue_run env gate session task (Reply.failed e) = (fresh_loop gate, raise e)
continue_run env gate session task (Reply.ok (screen, false)) = (fresh_loop gate, pure tt)
continue_run env gate session task (Reply.ok (screen, true)) =
    if session.stopped_before
    then (fresh_loop gate, (Reply.ok tt, emit env Emission.killswitch))
    else let (s, m) = run_decided env gate session screen (session.decide screen task) in
      (s, (m.0, assemble env.app_state task ++ m.1))

unfoldable pub run : Env → Gate → Session → Text → LoopState × Exec Unit
run env gate session task =
    let built = (build_state env session task).1 in
    let (s, m) = continue_run env gate session task built.0 in (s, (m.0, built.1 ++ m.1))

-- The events of a plan, one for each action.
unfoldable pub show_actions : Env → List Action → List Step
show_actions env [] = emit env Emission.done
show_actions env (action ∷ actions) = emit env (Emission.action action) ++ show_actions env actions

unfoldable pub show_decided : Env → Reply (List Action) → Exec Unit
show_decided env (Reply.failed e) = raise e
show_decided env (Reply.ok actions) =
    (Reply.ok tt, emit env (Emission.actions (length actions)) ++ show_actions env actions)

unfoldable pub continue_plan : Env → Session → Text → Reply (ScreenState × Bool) → Exec Unit
continue_plan env session task (Reply.failed e) = raise e
continue_plan env session task (Reply.ok (screen, false)) = pure tt
continue_plan env session task (Reply.ok (screen, true)) =
    if session.stopped_before
    then (Reply.ok tt, emit env Emission.killswitch)
    else let m = show_decided env (session.decide screen task) in
      (m.0, assemble env.app_state task ++ m.1)

unfoldable pub plan : Env → Session → Text → Exec Unit
plan env session task =
    let built = (build_state env session task).1 in
    let m = continue_plan env session task built.0 in (m.0, built.1 ++ m.1)
