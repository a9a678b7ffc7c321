-- ===== src/Orchestrator/KeysKept.antt =====
-- No handler of `src/agent/orchestrator.py` ends by a missing key on an action that has the keys of
-- its kind.
use hyprland_agent.Prelude.{
  Text, codes, true, Option, none, some, ◌≡◌, refl, text_key, contains, Bool-cases, inl, inr,
}
use hyprland_agent.Schemas.{ActionKind, kind_value, Action, ActionResult, Params, Value, Window}
use hyprland_agent.Safety.RateLimit.{check}
use hyprland_agent.Orchestrator.Exec.{Reply, Step}
use hyprland_agent.Orchestrator.Actions.{AppState, Env, Answers, is_control_terminal}
use hyprland_agent.Orchestrator.Perform.{
  target_is_safe, ensure_keyboard_target_is_safe, run_command, perform_terminal_command,
  perform_keyboard, send, send_dispatch, perform_dispatch, perform_read_file, perform_write,
  perform_write_file, perform_list_dir, integrate, perform_integration, perform, handled_or, Gate,
  configure, execute_action,
}
use hyprland_agent.Orchestrator.Keys.{
  Complete, no_key_error, HasKeys, AnswersHaveKeys, done-HasKeys, bind-HasKeys, need-HasKeys,
  as_text-HasKeys, convert-HasKeys, call-HasKeys, if-HasKeys, after-HasKeys,
  catch_file_errors-HasKeys, catch_permission-HasKeys,
}

module _ (env : Env) (a : Answers) (ok : AnswersHaveKeys a) where
  send-HasKeys : (k : ActionKind) (step : Step) → HasKeys (send env a k step)
  send-HasKeys k step = call-HasKeys step a.input_sent _ ok.1 (λ u. done-HasKeys _ _)

  send_dispatch-HasKeys : (k : ActionKind) (cmd : Text) → HasKeys (send_dispatch env a k cmd)
  send_dispatch-HasKeys k cmd = call-HasKeys _ a.response _ ok.3 (λ r. done-HasKeys _ _)

  target-HasKeys :
      (w : Reply (Option Window)) → no_key_error w ≡ true → HasKeys (target_is_safe env a w)
  unfolding target_is_safe HasKeys
  target-HasKeys (Reply.failed e) h = h
  target-HasKeys (Reply.ok none) h = refl
  target-HasKeys (Reply.ok (some w)) h = elim (Bool-cases (is_control_terminal a.processes w)) [
    | inl e ↦ rw e refl
    | inr e ↦ rw e refl
  ]

  keyboard-HasKeys :
      (k : ActionKind) (key : Text) (step : Value → Step) (p : Params)
      → contains key p ≡ true
      → HasKeys (perform_keyboard env a k key step p)
  unfolding perform_keyboard ensure_keyboard_target_is_safe
  keyboard-HasKeys k key step p h =
      bind-HasKeys (target_is_safe env a a.active) _ (target-HasKeys a.active ok.0) (λ safe.
        if-HasKeys safe _ _ (need-HasKeys key p _ h (λ v. send-HasKeys k (step v)))
          (done-HasKeys _ _))

  command-HasKeys :
      (p : Params)
      → contains (codes "command") p ≡ true
      → HasKeys (perform_terminal_command env a p)
  unfolding perform_terminal_command run_command
  command-HasKeys p h = need-HasKeys (codes "command") p _ h (λ v. as_text-HasKeys v _ (λ command.
      if-HasKeys _ _ _
        (convert-HasKeys _ _ (λ hold. call-HasKeys _ a.terminal _ ok.2 (λ t. done-HasKeys _ _)))
        (done-HasKeys _ _)))

  dispatch-HasKeys :
      (p : Params) → contains (codes "cmd") p ≡ true → HasKeys (perform_dispatch env a p)
  unfolding perform_dispatch
  dispatch-HasKeys p h = need-HasKeys (codes "cmd") p _ h (λ v. as_text-HasKeys v _ (λ cmd.
      if-HasKeys _ _ _
        (after-HasKeys _ _ (if-HasKeys _ _ _ (send_dispatch-HasKeys _ cmd) (done-HasKeys _ _)))
        (send_dispatch-HasKeys _ cmd)))

  read_file-HasKeys :
      (p : Params) → contains (codes "path") p ≡ true → HasKeys (perform_read_file env a p)
  unfolding perform_read_file
  read_file-HasKeys p h = catch_file_errors-HasKeys _ _ (
      need-HasKeys (codes "path") p _ h (λ path. convert-HasKeys _ _ (λ offset.
        convert-HasKeys _ _ (λ limit. call-HasKeys _ a.content _ ok.4 (λ out. done-HasKeys _ _)))))

  write-HasKeys :
      (path : Text) (p : Params)
      → contains (codes "content") p ≡ true
      → HasKeys (perform_write env a path p)
  unfolding perform_write
  write-HasKeys path p h = catch_permission-HasKeys _ _ (
      need-HasKeys (codes "content") p _ h
        (λ content. call-HasKeys _ a.input_sent _ ok.1 (λ u. done-HasKeys _ _)))

  write_file-HasKeys :
      (p : Params)
      → contains (codes "path") p ≡ true
      → contains (codes "content") p ≡ true
      → HasKeys (perform_write_file env a p)
  unfolding perform_write_file
  write_file-HasKeys p h h' = need-HasKeys (codes "path") p _ h (λ v. as_text-HasKeys v _ (λ path.
      if-HasKeys _ _ _
        (after-HasKeys _ _ (if-HasKeys _ _ _ (write-HasKeys path p h') (done-HasKeys _ _)))
        (write-HasKeys path p h')))

  list_dir-HasKeys :
      (p : Params) → contains (codes "path") p ≡ true → HasKeys (perform_list_dir env a p)
  unfolding perform_list_dir
  list_dir-HasKeys p h = catch_file_errors-HasKeys _ _ (
      need-HasKeys (codes "path") p _ h
        (λ path. call-HasKeys _ a.content _ ok.4 (λ out. done-HasKeys _ _)))

  handled_or-HasKeys :
      (action : Action) (o : Option ActionResult) → HasKeys (handled_or env a action o)
  handled_or-HasKeys action (some r) = done-HasKeys _ _
  handled_or-HasKeys action none = done-HasKeys _ _

  integrate-HasKeys :
      (action : Action) (app : Option AppState) → HasKeys (integrate env a action app)
  unfolding integrate
  integrate-HasKeys action none = done-HasKeys _ _
  integrate-HasKeys action (some app) = call-HasKeys _ a.handled _ ok.5 (handled_or-HasKeys action)

  -- An action that has the keys of its kind does not end by a missing key, where no call of the
  -- outside does.
  pub perform-HasKeys :
      (k : ActionKind) (p : Params)
      → Complete (record { kind = k; params = p })
      → HasKeys (perform env a k p)
  unfolding perform perform_integration
  perform-HasKeys ActionKind.screenshot p h = done-HasKeys _ _
  perform-HasKeys ActionKind.terminal_command p h = command-HasKeys p h.0
  perform-HasKeys ActionKind.type_text p h = keyboard-HasKeys _ _ _ p h.0
  perform-HasKeys ActionKind.key p h = keyboard-HasKeys _ _ _ p h.0
  perform-HasKeys ActionKind.mouse_move p h =
      need-HasKeys (codes "x") p _ h.0
        (λ x. need-HasKeys (codes "y") p _ h.1.0 (λ y. send-HasKeys _ _))
  perform-HasKeys ActionKind.click p h = send-HasKeys _ _
  perform-HasKeys ActionKind.scroll p h =
      need-HasKeys (codes "amount") p _ h.0 (λ amount. send-HasKeys _ _)
  perform-HasKeys ActionKind.focus_window p h =
      need-HasKeys (codes "address") p _ h.0 (λ address. send_dispatch-HasKeys _ _)
  perform-HasKeys ActionKind.dispatch p h = dispatch-HasKeys p h.0
  perform-HasKeys ActionKind.read_file p h = read_file-HasKeys p h.0
  perform-HasKeys ActionKind.write_file p h = write_file-HasKeys p h.0 h.1.0
  perform-HasKeys ActionKind.list_dir p h = list_dir-HasKeys p h.0
  perform-HasKeys ActionKind.notify p h = integrate-HasKeys _ env.app_state
  perform-HasKeys ActionKind.update_status p h = integrate-HasKeys _ env.app_state
  perform-HasKeys ActionKind.speak p h = integrate-HasKeys _ env.app_state
  perform-HasKeys ActionKind.clipboard_read p h =
      call-HasKeys _ a.content _ ok.4 (λ out. done-HasKeys _ _)
  perform-HasKeys ActionKind.clipboard_write p h =
      need-HasKeys (codes "text") p _ h.0 (λ v. send-HasKeys _ _)

  pub execute_action-HasKeys :
      (gate : Gate) (action : Action)
      → Complete action
      → HasKeys (execute_action env a gate action).1
  unfolding execute_action
  execute_action-HasKeys gate action h =
      elim (Bool-cases (check (configure env gate).limiter (kind_value action.kind) a.now).1) [
        | inl e ↦ rw e (perform-HasKeys action.kind action.params h)
        | inr e ↦ rw e (done-HasKeys _ _)
      ]
