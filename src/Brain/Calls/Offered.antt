-- ===== src/Brain/Calls/Offered.antt =====
-- The tools of the table of `src/agent/brain/openai_brain.py` against the handlers of the
-- orchestrator.
use hyprland_agent.Prelude.{
  ℕ, Text, codes, text_eq, true, Option, none, some, List, [], ◌∷◌, ◌≡◌, refl, ap, ◌∙◌, All,
  All-map, All-Memᴰ, Memᴰ, text_key, lookup, arith, Bool-cases, inl, inr,
}
use hyprland_agent.Schemas.{ActionKind, Action, Value, Params, Number}
use hyprland_agent.Orchestrator.Exec.{Reply}
use hyprland_agent.Orchestrator.Actions.{Env, Answers}
use hyprland_agent.Orchestrator.Perform.{Gate, execute_action}
use hyprland_agent.Orchestrator.Keys.{Complete, HasKeys, AnswersHaveKeys}
use hyprland_agent.Orchestrator.KeysKept.{execute_action-HasKeys}
use hyprland_agent.Brain.ActionMap.{and_then, act, scale_whole, verb_actions, computer_actions}
use hyprland_agent.Brain.Tools.{Tool, tools, has_required}
use hyprland_agent.Brain.Calls.{
  Desk, Placed, window_line, call_file_tool, call_other, verb_args, label, after_verbs, call_tool,
}
use hyprland_agent.Brain.Calls.Runs.{
  Returns, Serves, queue-Returns, queue_command-Returns, list_windows-Returns,
}
use hyprland_agent.Brain.Calls.Verbs.{Maps, verb_actions-Maps, whole, whole-or}

module _ (desk : Desk) (int_whole : (n : Number) → desk.int (Value.num n) ≡ some n) where
  computer_actions-Maps :
      (verb : Text) (scale : ℕ) (args : Params)
      → whole (lookup (codes "x") args) ≡ true
      → whole (lookup (codes "y") args) ≡ true
      → whole (lookup (codes "amount") args) ≡ true
      → Maps (computer_actions desk.int verb (verb_args desk scale args))
  unfolding computer_actions and_then verb_actions
  computer_actions-Maps verb scale args hx hy ha =
      let x = whole-or (lookup (codes "x") args) (Number.nonneg 0) hx in
      let y = whole-or (lookup (codes "y") args) (Number.nonneg 0) hy in
      let amt = whole-or (lookup (codes "amount") args) (Number.nonneg 3) ha in
      rw x.1 (
        rw y.1 (
          verb_actions-Maps desk.int verb (verb_args desk scale args) (scale_whole scale x.0)
            (scale_whole scale y.0) amt.0 (ap desk.int amt.1 ∙ int_whole amt.0)))

  label_some :
      (name : Text) (scale : ℕ) (x y : Option Value)
      → whole x ≡ true
      → whole y ≡ true
      → (said : Text) × (label desk name scale x y ≡ Reply.ok said)
  unfolding label and_then
  label_some name scale none y hx hy = (name, refl)
  label_some name scale (some v) none hx hy = (name, refl)
  label_some name scale (some (Value.num n)) (some (Value.num m)) hx hy = (_, refl)
  label_some name scale (some (Value.num n)) (some (Value.null)) hx hy = cc
  label_some name scale (some (Value.num n)) (some (Value.flag b)) hx hy = cc
  label_some name scale (some (Value.num n)) (some (Value.text t)) hx hy = cc
  label_some name scale (some (Value.null)) (some w) hx hy = cc
  label_some name scale (some (Value.flag b)) (some w) hx hy = cc
  label_some name scale (some (Value.text t)) (some w) hx hy = cc

  after_verbs-Returns :
      (name : Text) (args : Params) (scale : ℕ) (acts : List Action)
      → whole (lookup (codes "x") args) ≡ true
      → whole (lookup (codes "y") args) ≡ true
      → Returns (call_other desk name args)
      → All Complete acts
      → Returns (after_verbs desk name args scale acts)
  unfolding after_verbs and_then
  after_verbs-Returns name args scale [] hx hy r c = r
  after_verbs-Returns name args scale (a ∷ acts) hx hy r c =
      let said = label_some name scale (lookup (codes "x") args) (lookup (codes "y") args) hx hy in
      rw said.1 (said.0, a ∷ acts, refl, c)

  call_other-Serves :
      (wins : List Placed) → desk.clients ≡ Reply.ok wins → All (Serves (call_other desk)) tools
  unfolding call_other call_file_tool
  call_other-Serves wins h = (
    (λ inp r. (codes "unknown tool", [], refl, tt)),
    (
      (λ inp r. (codes "unknown tool", [], refl, tt)),
      (
        (λ inp r. (codes "unknown tool", [], refl, tt)),
        (
          (λ inp r. (codes "unknown tool", [], refl, tt)),
          (
            (λ inp r. (codes "unknown tool", [], refl, tt)),
            (
              (λ inp r. (codes "unknown tool", [], refl, tt)),
              (
                (λ inp r. (codes "unknown tool", [], refl, tt)),
                (
                  (λ inp r. (codes "unknown tool", [], refl, tt)),
                  (
                    (λ inp r. queue_command-Returns inp (ground arith)),
                    (
                      (λ inp r. queue-Returns _ _ _ _ inp (ground arith) (λ v. (refl, tt))),
                      (
                        (λ inp r.
                            list_windows-Returns desk wins (window_line desk) (codes "(none)") h),
                        (
                          (λ inp r. queue-Returns _ _ _ _ inp (ground arith) (λ v. (refl, tt))),
                          (
                            (λ inp r. (
                              _,
                              act ActionKind.read_file inp ∷ [],
                              refl,
                              ((ground arith, tt), tt),
                            )),
                            (
                              (λ inp r. (
                                _,
                                act ActionKind.write_file inp ∷ [],
                                refl,
                                ((ground arith, (ground arith, tt)), tt),
                              )),
                              (
                                (λ inp r. (
                                  _,
                                  act ActionKind.list_dir inp ∷ [],
                                  refl,
                                  ((ground arith, tt), tt),
                                )),
                                (
                                  (λ inp r.
                                      (_, act ActionKind.clipboard_read [] ∷ [], refl, (tt, tt))),
                                  (
                                    (λ inp r.
                                        queue-Returns _ _ _ _ inp (ground arith) (λ v. (refl, tt))),
                                    tt,
                                  ),
                                ),
                              ),
                            ),
                          ),
                        ),
                      ),
                    ),
                  ),
                ),
              ),
            ),
          ),
        ),
      ),
    ),
  )

  call_tool-Returns :
      (png : Text) (wins : List Placed) (scale : ℕ) (t : Tool) (inp : Params)
      → desk.png_b64 ≡ Reply.ok png
      → desk.clients ≡ Reply.ok wins
      → Memᴰ t tools
      → has_required t.required inp ≡ true
      → whole (lookup (codes "x") inp) ≡ true
      → whole (lookup (codes "y") inp) ≡ true
      → whole (lookup (codes "amount") inp) ≡ true
      → Returns (call_tool desk t.name inp scale)
  unfolding call_tool and_then Maps
  call_tool-Returns png wins scale t inp hp hw m r hx hy ha =
      elim (Bool-cases (text_eq t.name (codes "screenshot"))) [
        | inl e ↦ rw e (rw hp (_, act ActionKind.screenshot [] ∷ [], refl, (tt, tt)))
        | inr e ↦
            let mapped = computer_actions-Maps t.name scale inp hx hy ha in
            let other =
              All-Memᴰ (Serves (call_other desk)) t tools (call_other-Serves wins hw) m inp r in
            rw e (rw mapped.1 (after_verbs-Returns t.name inp scale mapped.0 hx hy other mapped.2))
      ]

-- For a tool that the other brains offer, an input that has the keys that its schema requires and
-- whole numbers for the coordinates and the amount where it has them, an `int` that keeps whole
-- numbers, and a screenshot and a window list that can be had: the call of the tool returns, and none
-- of the actions that it queues ends by a missing key when it is executed, in any state of the gates,
-- where no call of the outside does.
pub call_tool-execute_action :
    (desk : Desk) (png : Text) (wins : List Placed) (scale : ℕ) (env : Env) (answers : Answers)
    (gate : Gate) (t : Tool) (inp : Params)
    → ((n : Number) → desk.int (Value.num n) ≡ some n)
    → desk.png_b64 ≡ Reply.ok png
    → desk.clients ≡ Reply.ok wins
    → AnswersHaveKeys answers
    → Memᴰ t tools
    → has_required t.required inp ≡ true
    → whole (lookup (codes "x") inp) ≡ true
    → whole (lookup (codes "y") inp) ≡ true
    → whole (lookup (codes "amount") inp) ≡ true
    → (said : Text) × (acts : List Action) × (call_tool desk t.name inp scale
        ≡ Reply.ok (said, acts))
      × All (λ a. HasKeys (execute_action env answers gate a).1) acts
call_tool-execute_action desk png wins scale env answers gate t inp int_whole hp hw ok m r hx hy
      ha =
    let done = call_tool-Returns desk int_whole png wins scale t inp hp hw m r hx hy ha in
    (
      done.0,
      done.1,
      done.2,
      All-map Complete _ (execute_action-HasKeys env answers ok gate) done.1 done.3,
    )
