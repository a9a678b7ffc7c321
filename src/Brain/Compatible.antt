-- ===== src/Brain/Compatible.antt =====
-- `OpenAICompatibleBrain.decide` of `src/agent/brain/openai_brain.py`: the conversation with the model.
-- The client and the parsing of JSON are parameters; so is what the message object of the client
-- gives to `.get`, which `compact_messages` calls, as the dict it acts like or none at all.
pub mod Ends
mod Tests
use hyprland_agent.Prelude.{
  ℕ, zero, suc, Text, codes, Bool, true, false, Option, none, some, List, [], ◌∷◌, ◌++◌, map,
}
use hyprland_agent.Schemas.{Action, Value, Params}
use hyprland_agent.Orchestrator.Exec.{Error, Reply}
use hyprland_agent.Brain.Compact.{Block, Content, Message}
use hyprland_agent.Brain.ActionMap.{and_then}
use hyprland_agent.Brain.Calls.{Called, Desk, call_tool}
use hyprland_agent.Brain.Claude.{ContextConfig, Decided, compacted, max_loop, scale, user_text}

pub record ToolCall : Type 0 where
  pub id : Text
  pub name : Text
  pub arguments : Text

-- `response.choices[0].message`
pub record ChatMessage : Type 0 where
  pub content : Text
  pub tool_calls : List ToolCall

-- The actions of the calls and the messages with their results.
abbrev pub CalledAll : Type 0
CalledAll = List Action × List Message

abbrev pub tool_message : Text → Message
tool_message result_text = record { role = codes "tool"; content = Content.string result_text }

-- The messages, `none` once one of them has no `get`.
abbrev pub Messages : Type 0
Messages = Option (List Message)

abbrev pub appended : List Message → Option Message → List Message → Messages
appended messages none results = none
appended messages (some m) results = some (messages ++ m ∷ results)

module _ (desk : Desk) (loads : Text → Option Params) where
  -- A call whose arguments do not parse is skipped.
  unfoldable pub run_call : ToolCall → Option Params → Reply CalledAll
  run_call tc none = Reply.ok ([], [])
  run_call tc (some args) =
      and_then (call_tool desk tc.name args scale)
        (λ called. Reply.ok (called.1, tool_message called.0 ∷ []))

  -- `for tc in msg.tool_calls`
  unfoldable pub run_calls : List ToolCall → Reply CalledAll
  run_calls [] = Reply.ok ([], [])
  run_calls (tc ∷ tcs) =
      and_then (run_call tc (loads tc.arguments)) (λ first.
        and_then (run_calls tcs) (λ rest. Reply.ok (first.0 ++ rest.0, first.1 ++ rest.1)))

  unfoldable pub after_calls :
      (Messages → List Action → Decided)
      → List Message
      → Option Message
      → List Action
      → Reply CalledAll
      → Decided
  after_calls next messages m actions (Reply.failed e) = (Reply.failed e, [])
  after_calls next messages m actions (Reply.ok (acts, results)) =
      next (appended messages m results) (actions ++ acts)

  -- `if not msg.tool_calls: break`
  unfoldable pub after_message :
      (Messages → List Action → Decided)
      → List Message
      → Option Message
      → List Action
      → List ToolCall
      → Decided
  after_message next messages m actions [] = (Reply.ok actions, [])
  after_message next messages m actions (tc ∷ tcs) =
      after_calls next messages m actions (run_calls (tc ∷ tcs))

  unfoldable pub after_answer :
      (ChatMessage → Option Message)
      → (Messages → List Action → Decided)
      → List Message
      → List Action
      → Reply ChatMessage
      → Decided
  after_answer as_dict next messages actions (Reply.failed e) = (Reply.failed e, messages ∷ [])
  after_answer as_dict next messages actions (Reply.ok msg) =
      let rest = after_message next messages (as_dict msg) actions msg.tool_calls in
      (rest.0, messages ∷ rest.1)

  module _ (client : ℕ → List Message → Reply ChatMessage) (as_dict : ChatMessage → Option Message)
      (cfg : Option ContextConfig) where
    -- `for _iteration in range(_MAX_LOOP)`: the compaction reads every message first.
    unfoldable pub decide_loop : ℕ → ℕ → Messages → List Action → Decided
    decide_loop zero i messages actions = (Reply.ok actions, [])
    decide_loop (suc n) i none actions = (Reply.failed (Error.other (codes "get")), [])
    decide_loop (suc n) i (some messages) actions =
        let sent = compacted cfg messages in
        after_answer as_dict (decide_loop n (suc i)) sent actions (client i sent)

    -- The system prompt stands before the task.
    unfoldable pub decide_compatible : Text → Text → Text → Decided
    decide_compatible system_msg preamble task =
        decide_loop max_loop 0
          (some (
            record { role = codes "system"; content = Content.string system_msg }
            ∷ record {
              role = codes "user";
              content =
                  Content.blocks (Block.image ∷ Block.text_block (user_text preamble task) ∷ []);
            }
            ∷ []))
          []
