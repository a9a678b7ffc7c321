-- ===== src/Orchestrator/Guarded.antt =====
-- The gates of `plan` and `run` in `src/agent/orchestrator.py`, for a whole run.
use hyprland_agent.Prelude.{
  ℕ, Text, ◌≡◌, refl, ap, sym, ◌∙◌, append-nil, append_assoc, ◌⊎◌, inl, inr, Bool, true, false,
  Option, none, some, List, [], ◌∷◌, ◌++◌, All, All-append, Bool-cases, length, arith,
}
use hyprland_agent.Schemas.{Action, Window}
use hyprland_agent.Safety.Allowlist.{is_allowed}
use hyprland_agent.Orchestrator.Exec.{Reply, Emission, Step}
use hyprland_agent.Orchestrator.Actions.{AppState, Env, emit}
use hyprland_agent.Orchestrator.Perform.{Gate}
use hyprland_agent.Orchestrator.Course.{
  IsEvent, Course, emit-IsEvent, choose_steps, run_actions-Course,
}
use hyprland_agent.Orchestrator.Run.{
  ScreenState, Session, inspect, build_state, fresh_loop, run_decided, look_with, continue_run, run,
  run_actions, assemble,
}

-- An event, or a question to the memory.
abbrev pub IsQuiet : Text → Step → Type 0
IsQuiet task step = IsEvent step ⊎ (step ≡ Step.recalled task)

abbrev pub IsAllowedWindow : Session → Type 0
IsAllowedWindow session =
    (session.active ≡ Reply.ok none)
    ⊎ ((w : Window) × (session.active ≡ Reply.ok (some w))
        × ((is_allowed session.rules w session.misses).0 ≡ true))

-- The actions that the brain decided on are executed, and nothing stood against it.
abbrev pub IsCourse : Env → Session → Text → List Step → Type 0
IsCourse env session task steps =
    IsAllowedWindow session
    × (session.stopped_before ≡ false)
    × (session.stopped_after ≡ false)
    × (screen : ScreenState) × (actions : List Action) × (session.decide screen task
        ≡ Reply.ok actions)
    × Course env session.answers 0 actions steps

-- Quiet steps, and then a course of actions or nothing.
abbrev IsRest : Env → Session → Text → List Step → Type 0
IsRest env session task steps =
    (before : List Step) × (course : List Step) × (steps ≡ before ++ course)
    × All (IsQuiet task) before
    × ((course ≡ []) ⊎ IsCourse env session task course)

-- First the stop flag is removed.
abbrev pub IsGuarded : Env → Session → Text → List Step → Type 0
IsGuarded env session task steps =
    (before : List Step) × (course : List Step) × (steps ≡ Step.disarmed ∷ (before ++ course))
    × All (IsQuiet task) before
    × ((course ≡ []) ⊎ IsCourse env session task course)

module _ (env : Env) (session : Session) (task : Text) where
  quiet : (steps : List Step) → All IsEvent steps → All (IsQuiet task) steps
  quiet [] h = tt
  quiet (s ∷ steps) h = (inl h.0, quiet steps h.1)

  emit-IsQuiet : (e : Emission) → All (IsQuiet task) (emit env e)
  emit-IsQuiet e = quiet (emit env e) (emit-IsEvent env e)

  assemble-IsQuiet : (state : Option AppState) → All (IsQuiet task) (assemble state task)
  assemble-IsQuiet none = tt
  assemble-IsQuiet (some state) = (inr refl, tt)

  look-IsQuiet :
      (active : Option Window) (png : Reply Text) (mon : Reply (Option (ℕ × ℕ)))
      (wins : Reply (List Window))
      → All (IsQuiet task) (look_with env active png mon wins).1
  unfolding look_with
  look-IsQuiet active (Reply.failed e) mon wins = tt
  look-IsQuiet active (Reply.ok png) (Reply.failed e) wins = tt
  look-IsQuiet active (Reply.ok png) (Reply.ok mon) (Reply.failed e) = tt
  look-IsQuiet active (Reply.ok png) (Reply.ok mon) (Reply.ok wins) =
      emit-IsQuiet (Emission.state_seen active)

  inspect-IsQuiet :
      (active : Reply (Option Window)) → All (IsQuiet task) (inspect env session active).1.1
  unfolding inspect
  inspect-IsQuiet (Reply.failed e) = tt
  inspect-IsQuiet (Reply.ok none) = look-IsQuiet none _ _ _
  inspect-IsQuiet (Reply.ok (some w)) =
      elim (Bool-cases (is_allowed session.rules w session.misses).0) [
        | inl allowed ↦ rw allowed (look-IsQuiet (some w) _ _ _)
        | inr refused ↦ rw refused (emit-IsQuiet (Emission.blocked_window w))
      ]

  -- A state that may be acted on comes from an allowed window.
  inspect-IsAllowedWindow :
      (active : Reply (Option Window)) (screen : ScreenState)
      → session.active ≡ active
      → (inspect env session active).1.0 ≡ Reply.ok (screen, true)
      → IsAllowedWindow session
  unfolding inspect
  inspect-IsAllowedWindow (Reply.failed e) screen h k = cc
  inspect-IsAllowedWindow (Reply.ok none) screen h k = inl h
  inspect-IsAllowedWindow (Reply.ok (some w)) screen h k =
      elim (Bool-cases (is_allowed session.rules w session.misses).0) [
        | inl allowed ↦ inr (w, h, allowed)
        | inr refused ↦ absurd (ground arith)
      ]

  -- What `build_state` does behind the removal of the stop flag.
  seen-IsQuiet :
      All
        (IsQuiet task)
        (emit env (Emission.start task) ++ (inspect env session session.active).1.1)
  seen-IsQuiet =
      All-append (IsQuiet task) _ _ (emit-IsQuiet (Emission.start task))
        (inspect-IsQuiet session.active)

  only_quiet : (steps : List Step) → All (IsQuiet task) steps → IsRest env session task steps
  only_quiet steps h = (steps, [], sym (append-nil steps), h, inl refl)

  behind :
      (first steps : List Step)
      → All (IsQuiet task) first
      → IsRest env session task steps
      → IsRest env session task (first ++ steps)
  behind first steps h (before, course, e, q, c) = (
    first ++ before,
    course,
    ap (λ t. first ++ t) e ∙ sym (append_assoc first before course),
    All-append (IsQuiet task) first before h q,
    c,
  )

  run_decided-IsRest :
      (gate : Gate) (screen : ScreenState) (decided : Reply (List Action))
      → session.decide screen task ≡ decided
      → IsAllowedWindow session
      → session.stopped_before ≡ false
      → IsRest env session task (run_decided env gate session screen decided).1.1
  unfolding run_decided
  run_decided-IsRest gate screen (Reply.failed e) d allowed before = only_quiet [] tt
  run_decided-IsRest gate screen (Reply.ok actions) d allowed before =
      choose_steps (IsRest env session task) session.stopped_after _ _
        (λ stop. only_quiet _ (emit-IsQuiet Emission.killswitch))
        (λ go. (
          emit env (Emission.actions (length actions)),
          (run_actions env screen.screenshot_png session.answers 0 (fresh_loop gate) actions).1.1,
          refl,
          emit-IsQuiet (Emission.actions (length actions)),
          inr (
            allowed,
            before,
            go,
            screen,
            actions,
            d,
            run_actions-Course env screen.screenshot_png session.answers 0 (fresh_loop gate)
                actions,
          ),
        ))

  continue_run-IsRest :
      (gate : Gate) (built : Reply (ScreenState × Bool))
      → ((screen : ScreenState) → built ≡ Reply.ok (screen, true) → IsAllowedWindow session)
      → IsRest env session task (continue_run env gate session task built).1.1
  unfolding continue_run
  continue_run-IsRest gate (Reply.failed e) h = only_quiet [] tt
  continue_run-IsRest gate (Reply.ok (screen, false)) h = only_quiet [] tt
  continue_run-IsRest gate (Reply.ok (screen, true)) h =
      choose_steps (IsRest env session task) session.stopped_before _ _
        (λ stop. only_quiet _ (emit-IsQuiet Emission.killswitch))
        (λ go.
          behind (assemble env.app_state task) _ (assemble-IsQuiet env.app_state)
            (run_decided-IsRest gate screen (session.decide screen task) refl (h screen refl) go))

  -- A run removes the stop flag, then emits events and asks the memory, and then does nothing more
  -- or goes through the actions that the brain decided on, in order. It does so only where the
  -- active window at the start was none or on the allowlist and the stop flag was unset before and
  -- after the decision. Before each action the flag is read: when it is set, that is reported and
  -- no step follows; else the steps of the action are those of its execution, each permitted for
  -- its answers, and events follow, and then the next action or the end.
  pub run-IsGuarded : (gate : Gate) → IsGuarded env session task (run env gate session task).1.1
  unfolding run build_state
  run-IsGuarded gate =
      let (before, course, e, q, c) = behind _ _ seen-IsQuiet (
        continue_run-IsRest gate (inspect env session session.active).1.0
          (λ screen k. inspect-IsAllowedWindow session.active screen refl k)) in
      (before, course, ap (λ t. Step.disarmed ∷ t) e, q, c)
