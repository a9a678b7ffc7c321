-- ===== src/Brain/Calls/Runs.antt =====
-- The tools of the table of `src/agent/brain/claude.py` against the handlers of the orchestrator: an
-- input that has what its schema requires becomes actions that have what their handlers read.
use hyprland_agent.Prelude.{
  Text, codes, true, some, List, [], ◌∷◌, ◌≡◌, refl, All, All-map, All-Memᴰ, Memᴰ, text_key, lookup,
  contains, arith, Option-cases, inl, inr,
}
use hyprland_agent.Schemas.{ActionKind, Action, Value, Params}
use hyprland_agent.Orchestrator.Exec.{Reply, need}
use hyprland_agent.Orchestrator.Actions.{Env, Answers}
use hyprland_agent.Orchestrator.Perform.{Gate, execute_action}
use hyprland_agent.Orchestrator.Keys.{Complete, HasKeys, AnswersHaveKeys}
use hyprland_agent.Orchestrator.KeysKept.{execute_action-HasKeys}
use hyprland_agent.Brain.ActionMap.{and_then, act}
use hyprland_agent.Brain.Tools.{Tool, custom_tools, has_required}
use hyprland_agent.Brain.Calls.{
  Called, Desk, Placed, queue, queue_command, list_windows, placed_line, call_file_tool,
  handle_custom,
}

-- The call returns, and its actions have the keys of their kinds.
abbrev pub Returns : Reply Called → Type 0
Returns r = (said : Text) × (acts : List Action) × (r ≡ Reply.ok (said, acts)) × All Complete acts

and_then-need :
    (key : Text) (p : Params) (f : Value → Reply Called)
    → contains key p ≡ true
    → ((v : Value) → lookup key p ≡ some v → Returns (f v))
    → Returns (and_then (need key p).0 f)
unfolding need and_then
and_then-need key p f h k = elim (Option-cases (lookup key p)) [
  | inl e ↦ absurd cc
  | inr (v, e) ↦ rw e (k v e)
]

pub queue-Returns :
    (said : Text) (k : ActionKind) (key source : Text) (inp : Params)
    → contains source inp ≡ true
    → ((v : Value) → Complete (act k ((key, v) ∷ [])))
    → Returns (queue said k key source inp)
unfolding queue
queue-Returns said k key source inp h complete =
    and_then-need source inp _ h (λ v e. (said, act k ((key, v) ∷ []) ∷ [], refl, (complete v, tt)))

pub queue_command-Returns :
    (inp : Params) → contains (codes "command") inp ≡ true → Returns (queue_command inp)
unfolding queue_command
queue_command-Returns inp h =
    and_then-need (codes "command") inp _ h (λ v e. (_, _, refl, ((refl, tt), tt)))

pub list_windows-Returns :
    (desk : Desk) (wins : List Placed) (line : Placed → Text) (default : Text)
    → desk.clients ≡ Reply.ok wins
    → Returns (list_windows desk line default)
unfolding list_windows and_then
list_windows-Returns desk wins line default h = rw h (_, [], refl, tt)

-- What an input with the keys that the schema requires does.
abbrev pub Serves : (Text → Params → Reply Called) → Tool → Type 0
Serves call t = (inp : Params) → has_required t.required inp ≡ true → Returns (call t.name inp)

handle_custom-Serves :
    (desk : Desk) (wins : List Placed)
    → desk.clients ≡ Reply.ok wins
    → All (Serves (handle_custom desk)) custom_tools
unfolding handle_custom call_file_tool
handle_custom-Serves desk wins h = (
  (λ inp r. list_windows-Returns desk wins (placed_line desk) (codes "(no windows)") h),
  (
    (λ inp r. queue_command-Returns inp (ground arith)),
    (
      (λ inp r. queue-Returns _ _ _ _ inp (ground arith) (λ v. (refl, tt))),
      (
        (λ inp r. queue-Returns _ _ _ _ inp (ground arith) (λ v. (refl, tt))),
        (
          (λ inp r. (_, _, refl, ((ground arith, tt), tt))),
          (
            (λ inp r. (_, _, refl, ((ground arith, (ground arith, tt)), tt))),
            (
              (λ inp r. (_, _, refl, ((ground arith, tt), tt))),
              (
                (λ inp r. (_, _, refl, (tt, tt))),
                ((λ inp r. queue-Returns _ _ _ _ inp (ground arith) (λ v. (refl, tt))), tt),
              ),
            ),
          ),
        ),
      ),
    ),
  ),
)

-- For a tool that the Claude brain offers, an input that has the keys that its schema requires
-- and a window list that can be had: the call of the tool returns, and none of the actions that it
-- queues ends by a missing key when it is executed, in any state of the gates, where no call of the
-- outside does.
pub handle_custom-execute_action :
    (desk : Desk) (wins : List Placed) (env : Env) (answers : Answers) (gate : Gate) (t : Tool)
    (inp : Params)
    → desk.clients ≡ Reply.ok wins
    → AnswersHaveKeys answers
    → Memᴰ t custom_tools
    → has_required t.required inp ≡ true
    → (said : Text) × (acts : List Action) × (handle_custom desk t.name inp ≡ Reply.ok (said, acts))
      × All (λ a. HasKeys (execute_action env answers gate a).1) acts
handle_custom-execute_action desk wins env answers gate t inp h ok m r =
    let made =
      All-Memᴰ (Serves (handle_custom desk)) t custom_tools (handle_custom-Serves desk wins h) m inp
        r in
    (
      made.0,
      made.1,
      made.2,
      All-map Complete _ (execute_action-HasKeys env answers ok gate) made.1 made.3,
    )
