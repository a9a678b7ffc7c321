-- ===== src/Brain/Claude.antt =====
-- `ClaudeBrain.decide` of `src/agent/brain/claude.py`: the conversation with the model. The client of the
-- model is a parameter, which answers the `i`th request from its messages; the system prompt and the
-- preamble are given as texts.
pub mod Turns
pub mod Roles
mod Tests
use hyprland_agent.Prelude.{
  ℕ, zero, suc, Text, codes, text_eq, Bool, true, false, ◌||◌, Option, none, some, List, [], ◌∷◌,
  ◌++◌, is_some, if◌then◌else◌,
}
use hyprland_agent.Schemas.{Action, Value, Params}
use hyprland_agent.Orchestrator.Exec.{Error, Reply}
use hyprland_agent.Brain.Compact.{Part, ToolContent, Block, Content, Message, compact_messages}
use hyprland_agent.Brain.ActionMap.{and_then}
use hyprland_agent.Brain.Calls.{Called, Desk, handle_custom, computer_action_to_actions}

-- A block of the model's answer: a text, or a tool's use with its id, name and input. The
-- coordinate, the one entry of an input that is a list, stands by itself.
pub data ResponseBlock : Type 0 where
  said : Text → ResponseBlock
  tool_use : Text → Text → Params → Option (List Value) → ResponseBlock

pub record Response : Type 0 where
  pub content : List ResponseBlock
  pub stop_reason : Text

abbrev pub max_loop : ℕ
max_loop = 20

-- `1 / _SCALE`
abbrev pub scale : ℕ
scale = 2

abbrev pub result_of : Text → Text → Block
result_of id t = Block.tool_result id (ToolContent.parts (Part.text_part t ∷ []))

-- The actions of a response and the results of its tools.
abbrev pub Handled : Type 0
Handled = List Action × List Block

-- The content of the answer in the conversation: its blocks are objects, not dicts.
abbrev pub as_block : ResponseBlock → Block
as_block (ResponseBlock.said t) = Block.other_block
as_block (ResponseBlock.tool_use id name input coordinate) = Block.tool_use id

abbrev pub as_blocks : List ResponseBlock → List Block
as_blocks [] = []
as_blocks (b ∷ bs) = as_block b ∷ as_blocks bs

abbrev pub queued : Text → Called → Handled
queued id (t, acts) = (acts, result_of id t ∷ [])

module _ (desk : Desk) where
  -- `if block.type == "tool_use": ...`
  unfoldable pub handle_block : ResponseBlock → Reply Handled
  handle_block (ResponseBlock.said t) = Reply.ok ([], [])
  handle_block (ResponseBlock.tool_use id name input coordinate) =
      if text_eq name (codes "computer")
      then and_then (computer_action_to_actions desk input coordinate scale)
          (λ acts. Reply.ok (queued id (codes "action queued", acts)))
      else and_then (handle_custom desk name input) (λ called. Reply.ok (queued id called))

  -- `for block in response.content`
  unfoldable pub handle_blocks : List ResponseBlock → Reply Handled
  handle_blocks [] = Reply.ok ([], [])
  handle_blocks (b ∷ bs) = and_then (handle_block b) (λ first.
      and_then (handle_blocks bs) (λ rest. Reply.ok (first.0 ++ rest.0, first.1 ++ rest.1)))

-- `ctx.context_config`
pub record ContextConfig : Type 0 where
  pub keep_rounds : ℕ
  pub budget_tokens : ℕ

abbrev pub compacted : Option ContextConfig → List Message → List Message
compacted (some cfg) messages = compact_messages cfg.keep_rounds cfg.budget_tokens messages
compacted none messages = compact_messages 3 160000 messages

-- What a decision ends with, and the messages of each request.
abbrev pub Decided : Type 0
Decided = Reply (List Action) × List (List Message)

-- `response.stop_reason == "end_turn" or not tool_results`
abbrev pub ends : Response → List Block → Bool
ends response [] = true
ends response (r ∷ results) = text_eq response.stop_reason (codes "end_turn")

abbrev pub extended : List Message → Response → List Block → List Message
extended messages response results =
    messages
    ++ (record { role = codes "assistant"; content = Content.blocks (as_blocks response.content) }
        ∷ record { role = codes "user"; content = Content.blocks results }
        ∷ [])

-- After the tools: the loop ends here, or goes on by `next`.
unfoldable pub after_tools :
    (List Message → List Action → Decided)
    → List Message
    → List Action
    → Response
    → Reply Handled
    → Decided
after_tools next messages actions response (Reply.failed e) = (Reply.failed e, [])
after_tools next messages actions response (Reply.ok (acts, results)) =
    let rest = next (extended messages response results) (actions ++ acts) in
    if ends response results then (Reply.ok (actions ++ acts), []) else rest

-- After the answer of the client, which may be an exception.
unfoldable pub after_response :
    Desk
    → (List Message → List Action → Decided)
    → List Message
    → List Action
    → Reply Response
    → Decided
after_response desk next messages actions (Reply.failed e) = (Reply.failed e, messages ∷ [])
after_response desk next messages actions (Reply.ok response) =
    let rest = after_tools next messages actions response (handle_blocks desk response.content) in
    (rest.0, messages ∷ rest.1)

-- The preamble, where there is one, and the task.
abbrev pub user_text : Text → Text → Text
user_text [] task = codes "Task: " ++ task
user_text (c ∷ preamble) task = (c ∷ preamble) ++ codes "\n\nTask: " ++ task

module _ (desk : Desk) (client : ℕ → List Message → Reply Response)
    (cfg : Option ContextConfig) where
  -- `for _iteration in range(_MAX_LOOP)`, from iteration `i` on, with `n` left.
  unfoldable pub decide_from : ℕ → ℕ → List Message → List Action → Decided
  decide_from zero i messages actions = (Reply.ok actions, [])
  decide_from (suc n) i messages actions =
      let sent = compacted cfg messages in
      after_response desk (decide_from n (suc i)) sent actions (client i sent)

  unfoldable pub decide : Text → Text → Decided
  decide preamble task =
      decide_from max_loop 0
        (record {
          role = codes "user";
          content = Content.blocks (Block.image ∷ Block.text_block (user_text preamble task) ∷ []);
        }
          ∷ [])
        []
