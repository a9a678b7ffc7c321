-- ===== src/Brain/Compatible/Tests.antt =====
-- A run of `src/agent/brain/openai_brain.py` with a client whose messages have no `get`.
use hyprland_agent.Prelude.{ℕ, ◌≡◌, refl, Text, codes, Option, none, some, List, [], ◌∷◌, text_key}
use hyprland_agent.Schemas.{Number, Value, Params}
use hyprland_agent.Orchestrator.Exec.{Error, Reply, need}
use hyprland_agent.Brain.Compact.{Message}
use hyprland_agent.Brain.ActionMap.{and_then, verb_actions, computer_actions}
use hyprland_agent.Brain.Calls.{Desk, queue_command, call_other, after_verbs, call_tool}
use hyprland_agent.Brain.Compatible.{
  ChatMessage, run_call, run_calls, after_calls, after_message, after_answer, decide_loop,
  decide_compatible,
}

abbrev desk : Desk
desk = record {
  int = λ v. some (Number.nonneg 3);
  show = λ n. codes "0";
  repr = λ t. t;
  clients = Reply.ok [];
  png_b64 = Reply.ok [];
}

abbrev loads : Text → Option Params
loads t = some ((codes "command", Value.text t) ∷ [])

abbrev client : ℕ → List Message → Reply ChatMessage
client i sent = Reply.ok (record {
  content = [];
  tool_calls =
      record { id = codes "c"; name = codes "terminal_command"; arguments = codes "ls" } ∷ [];
})

-- The command of the first answer is lost: the second compaction raises.
no_get :
    (decide_compatible desk loads client (λ msg. none) none [] [] (codes "t")).0
    ≡ Reply.failed (Error.other (codes "get"))
unfolding decide_compatible decide_loop after_answer after_message after_calls run_calls run_call
    call_tool after_verbs call_other queue_command need computer_actions verb_actions and_then
no_get = refl
