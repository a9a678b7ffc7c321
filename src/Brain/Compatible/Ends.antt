-- ===== src/Brain/Compatible/Ends.antt =====
-- How the loop of `src/agent/brain/openai_brain.py` ends.
use hyprland_agent.Prelude.{
  ℕ, zero, suc, ◌≤◌, Text, Option, none, some, List, [], ◌∷◌, length, arith,
}
use hyprland_agent.Schemas.{Action, Params}
use hyprland_agent.Orchestrator.Exec.{Reply}
use hyprland_agent.Brain.Compact.{Message}
use hyprland_agent.Brain.Calls.{Desk}
use hyprland_agent.Brain.Claude.{ContextConfig, Decided, compacted}
use hyprland_agent.Brain.Compatible.{
  ToolCall, ChatMessage, CalledAll, Messages, run_calls, after_calls, after_message, after_answer,
  decide_loop, decide_compatible,
}

module _ (desk : Desk) (loads : Text → Option Params) where
  after_calls-le :
      (next : Messages → List Action → Decided) (messages : List Message) (m : Option Message)
      (actions : List Action) (r : Reply CalledAll) (n : ℕ)
      → ((more : Messages) (acts : List Action) → length (next more acts).1 ≤ n)
      → length (after_calls desk loads next messages m actions r).1 ≤ n
  unfolding after_calls
  after_calls-le next messages m actions (Reply.failed e) n h = omega arith
  after_calls-le next messages m actions (Reply.ok (acts, results)) n h = h _ _

  after_message-le :
      (next : Messages → List Action → Decided) (messages : List Message) (m : Option Message)
      (actions : List Action) (tcs : List ToolCall) (n : ℕ)
      → ((more : Messages) (acts : List Action) → length (next more acts).1 ≤ n)
      → length (after_message desk loads next messages m actions tcs).1 ≤ n
  unfolding after_message
  after_message-le next messages m actions [] n h = omega arith
  after_message-le next messages m actions (tc ∷ tcs) n h =
      after_calls-le next messages m actions (run_calls desk loads (tc ∷ tcs)) n h

  module _ (client : ℕ → List Message → Reply ChatMessage) (as_dict : ChatMessage → Option Message)
      (cfg : Option ContextConfig) where
    after_answer-le :
        (next : Messages → List Action → Decided) (messages : List Message) (actions : List Action)
        (r : Reply ChatMessage) (n : ℕ)
        → ((more : Messages) (acts : List Action) → length (next more acts).1 ≤ n)
        → length (after_answer desk loads as_dict next messages actions r).1 ≤ suc n
    unfolding after_answer
    after_answer-le next messages actions (Reply.failed e) n h = omega arith
    after_answer-le next messages actions (Reply.ok msg) n h =
        omega (arith, after_message-le next messages (as_dict msg) actions msg.tool_calls n h)

    decide_loop-le :
        (n i : ℕ) (messages : Messages) (actions : List Action)
        → length (decide_loop desk loads client as_dict cfg n i messages actions).1 ≤ n
    unfolding decide_loop
    decide_loop-le zero i messages actions = omega arith
    decide_loop-le (suc n) i none actions = omega arith
    decide_loop-le (suc n) i (some messages) actions =
        after_answer-le (decide_loop desk loads client as_dict cfg n (suc i))
          (compacted cfg messages) actions (client i (compacted cfg messages)) n
          (decide_loop-le n (suc i))

    -- Whatever the client answers and the tools do, a decision makes at most 20 requests.
    pub decide_compatible-le :
        (system_msg preamble task : Text)
        → length (decide_compatible desk loads client as_dict cfg system_msg preamble task).1 ≤ 20
    unfolding decide_compatible
    decide_compatible-le system_msg preamble task = decide_loop-le 20 0 _ []
