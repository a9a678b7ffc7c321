-- ===== src/Orchestrator/Course.antt =====
-- The loop over the actions in `run` of `src/agent/orchestrator.py`: its steps, action by action.
use hyprland_agent.Prelude.{
  ℕ, ◌+◌, Text, ◌≡◌, refl, sym, ◌⊎◌, inl, inr, Bool, true, false, List, [], ◌∷◌, ◌++◌, All,
  All-append, Bool-cases, Option-cases, append-nil, if◌then◌else◌,
}
use hyprland_agent.Schemas.{Action, ActionResult}
use hyprland_agent.Orchestrator.Exec.{Reply, Emission, Step, Exec}
use hyprland_agent.Orchestrator.Actions.{Env, Answers, emit}
use hyprland_agent.Orchestrator.Perform.{execute_action, Gate}
use hyprland_agent.Orchestrator.Permitted.{Permitted}
use hyprland_agent.Orchestrator.Handlers.{execute_action-Permitted}
use hyprland_agent.Orchestrator.Run.{
  LoopState, has_content, shown_result, verified, note_action, finish_turn, after_execution, turn,
  run_actions,
}

-- An event for the listeners, and nothing done to the machine.
abbrev pub IsEvent : Step → Type 0
IsEvent step = (e : Emission) × (step ≡ Step.emitted e)

-- Events, and then what the next turns do, or nothing where the loop is left.
abbrev pub IsTail : (List Step → Type 0) → List Step → Type 0
IsTail Next steps =
    (shown : List Step) × (rest : List Step) × (steps ≡ shown ++ rest)
    × All IsEvent shown
    × ((rest ≡ []) ⊎ Next rest)

-- The steps of the loop from action `i` on: with the stop flag set, the event that says so and
-- nothing else; else the event of the action, the steps of its execution, each permitted, some
-- events, and the steps of the next turns or none.
abbrev pub Course : Env → (ℕ → Answers) → ℕ → List Action → List Step → Type 0
Course env answers i [] steps = steps ≡ emit env Emission.done
Course env answers i (action ∷ actions) steps =
    (((answers i).stopped ≡ true) × (steps ≡ emit env Emission.killswitch))
    ⊎ (((answers i).stopped ≡ false)
        × (gate : Gate) × (tail : List Step) × (steps
            ≡ emit env (Emission.action action)
              ++ ((execute_action env (answers i) gate action).1.1 ++ tail))
        × All (Permitted (answers i)) (execute_action env (answers i) gate action).1.1
        × IsTail (Course env answers (i + 1) actions) tail)

pub emit-IsEvent : (env : Env) (e : Emission) → All IsEvent (emit env e)
emit-IsEvent env e = elim (Option-cases env.ctx) [
  | inl no_ctx ↦ rw no_ctx tt
  | inr (id, ctx) ↦ rw ctx ((e, refl), tt)
]

shown-IsEvent : (env : Env) (r : ActionResult) → All IsEvent (shown_result env r)
shown-IsEvent env r = elim (Bool-cases (has_content r)) [
  | inl content ↦ rw content (emit-IsEvent env (Emission.action_result r))
  | inr empty ↦ rw empty tt
]

pub choose_steps :
    (P : List Step → Type 0) (b : Bool) (x y : LoopState × Exec Unit)
    → (b ≡ true → P x.1.1)
    → (b ≡ false → P y.1.1)
    → P (if b then x else y).1.1
choose_steps P true x y h k = h refl
choose_steps P false x y h k = k refl

module _ (env : Env) (png : Text) (Next : List Step → Type 0)
    (next : LoopState → LoopState × Exec Unit) (rest : (s : LoopState) → Next (next s).1.1) where
  finish_turn-IsTail :
      (a : Answers) (s : LoopState) (action : Action) (gate : Gate) (plain : ActionResult)
      → IsTail Next (finish_turn env png a s action gate plain next).1.1
  unfolding finish_turn
  finish_turn-IsTail a s action gate plain =
      let result = verified env png a action.kind plain in
      let events = shown-IsEvent env result in
      let stuck = emit env (Emission.stuck action) in
      choose_steps (IsTail Next) (note_action env s gate action).1 _ _
        (λ e. (
          shown_result env result ++ stuck,
          [],
          sym (append-nil (shown_result env result ++ stuck)),
          All-append IsEvent _ _ events (emit-IsEvent env (Emission.stuck action)),
          inl refl,
        ))
        (λ e. (
          shown_result env result,
          (next (note_action env s gate action).0).1.1,
          refl,
          events,
          inr (rest (note_action env s gate action).0),
        ))

  after_execution-IsTail :
      (a : Answers) (s : LoopState) (action : Action) (gate : Gate) (r : Reply ActionResult)
      → IsTail Next (after_execution env png a s action gate r next).1.1
  unfolding after_execution
  after_execution-IsTail a s action gate (Reply.failed e) = ([], [], refl, tt, inl refl)
  after_execution-IsTail a s action gate (Reply.ok plain) = finish_turn-IsTail a s action gate plain

module _ (env : Env) (png : Text) (answers : ℕ → Answers) where
  turn-Course :
      (i : ℕ) (s : LoopState) (action : Action) (actions : List Action)
      (next : LoopState → LoopState × Exec Unit)
      → ((s' : LoopState) → Course env answers (i + 1) actions (next s').1.1)
      → Course env answers i (action ∷ actions) (turn env png (answers i) s action next).1.1
  unfolding turn
  turn-Course i s action actions next later =
      choose_steps (Course env answers i (action ∷ actions)) (answers i).stopped _ _
        (λ stop. inl (stop, refl))
        (λ go.
          let (gate, m) = execute_action env (answers i) s.gate action in
          inr (
            go,
            s.gate,
            (after_execution env png (answers i) s action gate m.0 next).1.1,
            refl,
            (execute_action-Permitted env (answers i) s.gate action).0,
            after_execution-IsTail env png (Course env answers (i + 1) actions) next later
                (answers i) s action gate m.0,
          ))

  pub run_actions-Course :
      (i : ℕ) (s : LoopState) (actions : List Action)
      → Course env answers i actions (run_actions env png answers i s actions).1.1
  unfolding run_actions
  run_actions-Course i s [] = refl
  run_actions-Course i s (action ∷ actions) =
      turn-Course i s action actions (λ s'. run_actions env png answers (i + 1) s' actions)
        (λ s'. run_actions-Course (i + 1) s' actions)
