-- ===== src/Orchestrator/Perform.antt =====
-- `_execute_action` of `src/agent/orchestrator.py`: the handler of each kind of action, and the gates
-- before them.
use hyprland_agent.Prelude.{
  ℕ, ◌*◌, Text, codes, Bool, true, false, not, ◌&&◌, Option, none, some, [], ◌∷◌, ◌++◌, text_key,
  lookup, ltb, if◌then◌else◌,
}
use hyprland_agent.Schemas.{
  ActionKind, kind_value, Action, ActionResult, plain_result, Number, Params, Value, Window,
}
use hyprland_agent.Safety.RateLimit.{RateLimiter, check, reconfigure}
use hyprland_agent.Safety.Sanitize.{sanitize_command}
use hyprland_agent.Safety.Confirm.{is_destructive_dispatch}
use hyprland_agent.Orchestrator.Exec.{
  Reply, Emission, Step, Exec, pure, raise, call, bind, after, need, as_text,
}
use hyprland_agent.Orchestrator.Actions.{
  AppState, Env, Answers, Terminal, is_control_terminal, truthy, get_or, or_none, convert,
  blocked_result, rejected_result, stdout_result, response_result, catch_file_errors,
  catch_permission, emit,
}

module _ (env : Env) (answers : Answers) where
  -- The answer for what `hypr.active_window` returns.
  unfoldable pub target_is_safe : Reply (Option Window) → Exec Bool
  target_is_safe (Reply.failed e) = raise e
  target_is_safe (Reply.ok none) = pure true
  target_is_safe (Reply.ok (some window)) =
      if is_control_terminal answers.processes window
      then (Reply.ok false, emit env (Emission.blocked_terminal window))
      else pure true

  unfoldable pub ensure_keyboard_target_is_safe : Exec Bool
  ensure_keyboard_target_is_safe = target_is_safe answers.active

  abbrev pub run_id : Text
  run_id = elim env.ctx [ some id ↦ id | none ↦ codes "local" ]

  abbrev pub capture_cap : ℕ
  capture_cap = elim env.app_state [ some app ↦ app.capture_cap_kb * 1024 | none ↦ 65536 ]

  abbrev pub terminal_result : Bool → Terminal → ActionResult
  terminal_result visible t = record (plain_result ActionKind.terminal_command) {
    returncode = some t.code;
    stdout = or_none t.stdout;
    stderr = or_none t.stderr;
    truncated = if not visible && ltb capture_cap t.total_bytes then some true else none;
  }

  unfoldable pub run_command : Text → Params → Exec ActionResult
  run_command command p =
      let visible = truthy (get_or (codes "visible") (Value.flag true) p) in
      bind (convert (env.builtins.float (get_or (codes "hold_s") (Value.num (Number.nonneg 0)) p)))
        (λ hold.
          bind
            (call
              (Step.ran_command command run_id visible hold capture_cap (lookup (codes "stdin") p))
              answers.terminal)
            (λ t. pure (terminal_result visible t)))

  unfoldable pub perform_terminal_command : Params → Exec ActionResult
  perform_terminal_command p = bind (need (codes "command") p) (λ v. bind (as_text v) (λ command.
      if (sanitize_command command).0
      then run_command command p
      else pure (
          blocked_result ActionKind.terminal_command
            (codes "unsafe_command: " ++ (sanitize_command command).1))))

  -- A call of `src/agent/tools/input.py`, then the plain result.
  abbrev pub send : ActionKind → Step → Exec ActionResult
  send k step = bind (call step answers.input_sent) (λ u. pure (plain_result k))

  -- The keyboard actions: `type_text` with its text, and `key` with its combination.
  unfoldable pub perform_keyboard : ActionKind → Text → (Value → Step) → Params → Exec ActionResult
  perform_keyboard k key step p = bind ensure_keyboard_target_is_safe (λ safe.
      if safe
      then bind (need key p) (λ v. send k (step v))
      else pure (blocked_result k (codes "control_terminal")))

  abbrev pub send_dispatch : ActionKind → Text → Exec ActionResult
  send_dispatch k cmd =
      bind (call (Step.dispatched cmd) answers.response) (λ r. pure (response_result k r))

  unfoldable pub perform_dispatch : Params → Exec ActionResult
  perform_dispatch p = bind (need (codes "cmd") p) (λ v. bind (as_text v) (λ cmd.
      if is_destructive_dispatch cmd
      then after (Step.asked (codes "Hyprland dispatch: " ++ env.builtins.repr cmd) ∷ []) (
          if answers.confirmed
          then send_dispatch ActionKind.dispatch cmd
          else pure (rejected_result ActionKind.dispatch cmd))
      else send_dispatch ActionKind.dispatch cmd))

  unfoldable pub perform_read_file : Params → Exec ActionResult
  perform_read_file p =
      let zero_value = Value.num (Number.nonneg 0) in
      catch_file_errors ActionKind.read_file (
        bind (need (codes "path") p) (λ path.
          bind (convert (env.builtins.int (get_or (codes "offset") zero_value p))) (λ offset.
            bind (convert (env.builtins.int (get_or (codes "limit") zero_value p))) (λ limit.
              bind (call (Step.read_file path offset limit) answers.content)
                (λ out. pure (stdout_result ActionKind.read_file out))))))

  unfoldable pub perform_write : Text → Params → Exec ActionResult
  perform_write path p = catch_permission ActionKind.write_file (
      bind (need (codes "content") p) (λ content.
        bind
          (call
            (Step.write_file path content (truthy (get_or (codes "append") (Value.flag false) p)))
            answers.input_sent)
          (λ u. pure (plain_result ActionKind.write_file))))

  unfoldable pub perform_write_file : Params → Exec ActionResult
  perform_write_file p = bind (need (codes "path") p) (λ v. bind (as_text v) (λ path.
      if answers.target_exists && not (truthy (get_or (codes "append") (Value.flag false) p))
      then after (Step.asked (codes "Overwrite file: " ++ path) ∷ []) (
          if answers.confirmed
          then perform_write path p
          else pure (rejected_result ActionKind.write_file path))
      else perform_write path p))

  unfoldable pub perform_list_dir : Params → Exec ActionResult
  perform_list_dir p = catch_file_errors ActionKind.list_dir (
      bind (need (codes "path") p) (λ path.
        bind
          (call (Step.list_dir path (truthy (get_or (codes "recursive") (Value.flag false) p)))
            answers.content)
          (λ out. pure (stdout_result ActionKind.list_dir out))))

  -- `if result is not None: return result`, and the plain result after it.
  abbrev pub handled_or : Action → Option ActionResult → Exec ActionResult
  handled_or action (some r) = pure r
  handled_or action none = pure (plain_result action.kind)

  unfoldable pub integrate : Action → Option AppState → Exec ActionResult
  integrate action none = pure (plain_result action.kind)
  integrate action (some app) =
      bind (call (Step.integrated action) answers.handled) (handled_or action)

  unfoldable pub perform_integration : Action → Exec ActionResult
  perform_integration action = integrate action env.app_state

  -- The handler of a kind, behind the gates.
  unfoldable pub perform : ActionKind → Params → Exec ActionResult
  perform ActionKind.screenshot p = pure (plain_result ActionKind.screenshot)
  perform ActionKind.terminal_command p = perform_terminal_command p
  perform ActionKind.type_text p = perform_keyboard ActionKind.type_text (codes "text") Step.typed p
  perform ActionKind.key p = perform_keyboard ActionKind.key (codes "combo") Step.pressed p
  perform ActionKind.mouse_move p =
      bind (need (codes "x") p)
        (λ x. bind (need (codes "y") p) (λ y. send ActionKind.mouse_move (Step.moved x y)))
  perform ActionKind.click p =
      send ActionKind.click (Step.clicked (get_or (codes "button") (Value.text (codes "left")) p))
  perform ActionKind.scroll p = bind (need (codes "amount") p) (λ amount.
      send ActionKind.scroll
        (Step.scrolled amount (get_or (codes "horizontal") (Value.flag false) p)))
  perform ActionKind.focus_window p = bind (need (codes "address") p) (λ address.
      send_dispatch ActionKind.focus_window
        (codes "focuswindow address:" ++ env.builtins.str address))
  perform ActionKind.dispatch p = perform_dispatch p
  perform ActionKind.read_file p = perform_read_file p
  perform ActionKind.write_file p = perform_write_file p
  perform ActionKind.list_dir p = perform_list_dir p
  perform ActionKind.notify p =
      perform_integration (record { kind = ActionKind.notify; params = p })
  perform ActionKind.update_status p =
      perform_integration (record { kind = ActionKind.update_status; params = p })
  perform ActionKind.speak p = perform_integration (record { kind = ActionKind.speak; params = p })
  perform ActionKind.clipboard_read p =
      bind (call Step.clip_read answers.content)
        (λ out. pure (stdout_result ActionKind.clipboard_read out))
  perform ActionKind.clipboard_write p =
      bind (need (codes "text") p) (λ v. send ActionKind.clipboard_write (Step.clip_wrote v))

-- `_rate_limiter` and `_rate_limiter_configured`
pub record Gate : Type 0 where
  pub limiter : RateLimiter
  pub configured : Bool

-- The limiter takes its limits from the configuration at the first action that has one.
unfoldable pub configure : Env → Gate → Gate
configure env gate = elim gate.configured [
  | true ↦ gate
  | false ↦ elim env.app_state [
    | none ↦ gate
    | some app ↦ record { limiter = reconfigure gate.limiter app.rate_limit; configured = true }
  ]
]

unfoldable pub execute_action : Env → Answers → Gate → Action → Gate × Exec ActionResult
execute_action env answers gate action =
    let gate' = configure env gate in
    let (limiter, granted) = check gate'.limiter (kind_value action.kind) answers.now in
    let gate'' = record gate' { limiter = limiter } in
    if granted
    then (gate'', perform env answers action.kind action.params)
    else (gate'', pure (blocked_result action.kind (codes "rate_limited")))
