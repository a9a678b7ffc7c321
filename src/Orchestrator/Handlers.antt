-- ===== src/Orchestrator/Handlers.antt =====
-- Each handler of `_execute_action` in `src/agent/orchestrator.py` makes permitted steps only.
use hyprland_agent.Prelude.{
  Text, codes, ◌≡◌, refl, ap, ◌∙◌, ◌⊎◌, inl, inr, Bool, true, false, not, ◌&&◌, Option, none, some,
  [], All, text_key, Bool-cases, Option-cases, arith,
}
use hyprland_agent.Schemas.{ActionKind, kind_value, Action, ActionResult, Params, Value, Window}
use hyprland_agent.Safety.RateLimit.{check}
use hyprland_agent.Safety.Sanitize.{sanitize_command}
use hyprland_agent.Safety.Confirm.{is_destructive_dispatch}
use hyprland_agent.Orchestrator.Exec.{Reply, Emission, Step, All-bind}
use hyprland_agent.Orchestrator.Actions.{
  AppState, Env, Answers, is_control_terminal, emit, truthy, get_or, blocked_result,
}
use hyprland_agent.Orchestrator.Perform.{
  Gate, configure, execute_action, perform, ensure_keyboard_target_is_safe, run_command,
  perform_terminal_command, perform_keyboard, perform_dispatch, perform_read_file, perform_write,
  perform_write_file, perform_list_dir, perform_integration, handled_or, integrate, target_is_safe,
}
use hyprland_agent.Orchestrator.Permitted.{
  IsSafeTarget, Permitted, need_then, text_then, choose_All, after-All, convert_then, call_then,
  catch_file_errors-All, catch_permission-All,
}

not_both_true :
    {A : Type 0} (exists append : Bool)
    → exists && not append ≡ false
    → (append ≡ true) ⊎ (exists ≡ false) ⊎ A
not_both_true false append h = inr (inl refl)
not_both_true true true h = inl refl
not_both_true true false h = absurd (ground arith)

module _ (env : Env) (a : Answers) where
  pub emit-Permitted : (e : Emission) → All (Permitted a) (emit env e)
  emit-Permitted e = elim (Option-cases env.ctx) [
    | inl no_ctx ↦ rw no_ctx tt
    | inr (id, ctx) ↦ rw ctx (tt, tt)
  ]

  run_command-Permitted :
      (command : Text) (p : Params)
      → (sanitize_command command).0 ≡ true
      → All (Permitted a) (run_command env a command p).1
  unfolding run_command
  run_command-Permitted command p safe =
      convert_then (Permitted a) _ _ (λ hold. call_then (Permitted a) _ _ _ safe (λ t. tt))

  pub perform_terminal_command-Permitted :
      (p : Params) → All (Permitted a) (perform_terminal_command env a p).1
  unfolding perform_terminal_command
  perform_terminal_command-Permitted p = need_then (Permitted a) _ p _ (λ v.
      text_then (Permitted a) v _ (λ command.
        choose_All (Permitted a) _ _ _ (run_command-Permitted command p) (λ unsafe. tt)))

  target-Permitted : (w : Reply (Option Window)) → All (Permitted a) (target_is_safe env a w).1
  unfolding target_is_safe
  target-Permitted (Reply.failed e) = tt
  target-Permitted (Reply.ok none) = tt
  target-Permitted (Reply.ok (some w)) = elim (Bool-cases (is_control_terminal a.processes w)) [
    | inl control ↦ rw control (emit-Permitted (Emission.blocked_terminal w))
    | inr safe ↦ rw safe tt
  ]

  target-IsSafeTarget :
      (w : Reply (Option Window))
      → a.active ≡ w
      → (target_is_safe env a w).0 ≡ Reply.ok true
      → IsSafeTarget a
  unfolding target_is_safe
  target-IsSafeTarget (Reply.failed e) h k = cc
  target-IsSafeTarget (Reply.ok none) h k = inl h
  target-IsSafeTarget (Reply.ok (some w)) h k =
      elim (Bool-cases (is_control_terminal a.processes w)) [
        | inl control ↦ absurd (ground arith)
        | inr safe ↦ inr (w, h, safe)
      ]

  pub perform_keyboard-Permitted :
      (k : ActionKind) (key : Text) (step : Value → Step) (p : Params)
      → ((v : Value) → IsSafeTarget a → Permitted a (step v))
      → All (Permitted a) (perform_keyboard env a k key step p).1
  unfolding perform_keyboard ensure_keyboard_target_is_safe
  perform_keyboard-Permitted k key step p fits =
      All-bind (Permitted a) (target_is_safe env a a.active) _ (target-Permitted a.active)
        (λ safe answer.
          choose_All (Permitted a) safe _ _
            (λ is_safe. need_then (Permitted a) key p _ (λ v.
              call_then (Permitted a) _ _ _
                (fits v (target-IsSafeTarget a.active refl (answer ∙ ap Reply.ok is_safe)))
                (λ u. tt)))
            (λ unsafe. tt))

  pub perform_dispatch-Permitted : (p : Params) → All (Permitted a) (perform_dispatch env a p).1
  unfolding perform_dispatch
  perform_dispatch-Permitted p = need_then (Permitted a) _ p _ (λ v.
      text_then (Permitted a) v _ (λ cmd.
        choose_All (Permitted a) (is_destructive_dispatch cmd) _ _
          (λ destructive. after-All (Permitted a) _ _ tt (
            choose_All (Permitted a) a.confirmed _ _
              (λ agreed. call_then (Permitted a) _ _ _ (inr (inl agreed)) (λ r. tt))
              (λ refused. tt)))
          (λ harmless. call_then (Permitted a) _ _ _ (inl harmless) (λ r. tt))))

  pub perform_read_file-Permitted : (p : Params) → All (Permitted a) (perform_read_file env a p).1
  unfolding perform_read_file
  perform_read_file-Permitted p = catch_file_errors-All (Permitted a) _ _ (
      need_then (Permitted a) _ p _ (λ path. convert_then (Permitted a) _ _ (λ offset.
        convert_then (Permitted a) _ _ (λ limit. call_then (Permitted a) _ _ _ tt (λ out. tt)))))

  perform_write-Permitted :
      (path : Text) (p : Params)
      → (truthy (get_or (codes "append") (Value.flag false) p) ≡ true)
        ⊎ (a.target_exists ≡ false)
        ⊎ (a.confirmed ≡ true)
      → All (Permitted a) (perform_write env a path p).1
  unfolding perform_write
  perform_write-Permitted path p h =
      catch_permission-All (Permitted a) _ _
        (need_then (Permitted a) _ p _ (λ content. call_then (Permitted a) _ _ _ h (λ u. tt)))

  pub perform_write_file-Permitted : (p : Params) → All (Permitted a) (perform_write_file env a p).1
  unfolding perform_write_file
  perform_write_file-Permitted p = need_then (Permitted a) _ p _ (λ v.
      text_then (Permitted a) v _ (λ path.
        choose_All (Permitted a) _ _ _
          (λ asks. after-All (Permitted a) _ _ tt (
            choose_All (Permitted a) a.confirmed _ _
              (λ agreed. perform_write-Permitted path p (inr (inr agreed))) (λ refused. tt)))
          (λ free. perform_write-Permitted path p (not_both_true _ _ free))))

  pub perform_list_dir-Permitted : (p : Params) → All (Permitted a) (perform_list_dir env a p).1
  unfolding perform_list_dir
  perform_list_dir-Permitted p =
      catch_file_errors-All (Permitted a) _ _
        (need_then (Permitted a) _ p _ (λ path. call_then (Permitted a) _ _ _ tt (λ out. tt)))

  handled-Permitted :
      (action : Action) (handled : Option ActionResult)
      → All (Permitted a) (handled_or env a action handled).1
  handled-Permitted action none = tt
  handled-Permitted action (some r) = tt

  integrate-Permitted :
      (action : Action) (app : Option AppState) → All (Permitted a) (integrate env a action app).1
  unfolding integrate
  integrate-Permitted action none = tt
  integrate-Permitted action (some app) =
      call_then (Permitted a) _ _ _ tt (handled-Permitted action)

  pub perform_integration-Permitted :
      (action : Action) → All (Permitted a) (perform_integration env a action).1
  unfolding perform_integration
  perform_integration-Permitted action = integrate-Permitted action env.app_state

  perform-Permitted : (k : ActionKind) (p : Params) → All (Permitted a) (perform env a k p).1
  unfolding perform
  perform-Permitted ActionKind.screenshot p = tt
  perform-Permitted ActionKind.terminal_command p = perform_terminal_command-Permitted p
  perform-Permitted ActionKind.type_text p = perform_keyboard-Permitted _ _ _ p (λ v safe. safe)
  perform-Permitted ActionKind.key p = perform_keyboard-Permitted _ _ _ p (λ v safe. safe)
  perform-Permitted ActionKind.mouse_move p =
      need_then (Permitted a) _ p _
        (λ x. need_then (Permitted a) _ p _ (λ y. call_then (Permitted a) _ _ _ tt (λ u. tt)))
  perform-Permitted ActionKind.click p = call_then (Permitted a) _ _ _ tt (λ u. tt)
  perform-Permitted ActionKind.scroll p =
      need_then (Permitted a) _ p _ (λ x. call_then (Permitted a) _ _ _ tt (λ u. tt))
  perform-Permitted ActionKind.focus_window p =
      need_then (Permitted a) _ p _
        (λ v. call_then (Permitted a) _ _ _ (inr (inr (_, refl))) (λ r. tt))
  perform-Permitted ActionKind.dispatch p = perform_dispatch-Permitted p
  perform-Permitted ActionKind.read_file p = perform_read_file-Permitted p
  perform-Permitted ActionKind.write_file p = perform_write_file-Permitted p
  perform-Permitted ActionKind.list_dir p = perform_list_dir-Permitted p
  perform-Permitted ActionKind.notify p = perform_integration-Permitted _
  perform-Permitted ActionKind.update_status p = perform_integration-Permitted _
  perform-Permitted ActionKind.speak p = perform_integration-Permitted _
  perform-Permitted ActionKind.clipboard_read p = call_then (Permitted a) _ _ _ tt (λ out. tt)
  perform-Permitted ActionKind.clipboard_write p =
      need_then (Permitted a) _ p _ (λ v. call_then (Permitted a) _ _ _ tt (λ u. tt))

  -- Executing an action makes permitted steps only. Either the rate limiter, set up from the
  -- configuration, grants the kind of the action, or no step is made and the result is blocked.
  pub execute_action-Permitted :
      (gate : Gate) (action : Action)
      → let (gate', m) = execute_action env a gate action in
        All (Permitted a) m.1
        × (((check (configure env gate).limiter (kind_value action.kind) a.now).1 ≡ true)
            ⊎ ((m.0 ≡ Reply.ok (blocked_result action.kind (codes "rate_limited"))) × (m.1 ≡ [])))
  unfolding execute_action
  execute_action-Permitted gate action =
      elim (Bool-cases (check (configure env gate).limiter (kind_value action.kind) a.now).1) [
        | inl granted ↦ rw granted (perform-Permitted action.kind action.params, inl refl)
        | inr refused ↦ rw refused (tt, inr (refl, refl))
      ]
