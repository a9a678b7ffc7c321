-- ===== src/Brain/Compact/Tests.antt =====
-- Runs of `src/agent/brain/_common.py` on small conversations, and the theorems about it at them.
use hyprland_agent.Prelude.{codes, ◌≡◌, refl, min, List, [], ◌∷◌, arith}
use hyprland_agent.Brain.Compact.{
  Part, ToolContent, Block, Content, Message, compact_messages, estimate_tokens, message_tokens,
  block_tokens, tool_tokens, part_tokens,
}
use hyprland_agent.Brain.Compact.Rounds.{rounds, Kept}
use hyprland_agent.Brain.Compact.Kept.{
  compact_messages-Kept, compact_messages-exchange, Turn, conversation, exchange, answer,
}

abbrev prompt : Message
prompt = record { role = codes "system"; content = Content.string (codes "be brief") }

abbrev request : Message
request = record { role = codes "user"; content = Content.string (codes "open the browser") }

abbrev reply : Message
reply = record { role = codes "assistant"; content = Content.absent }

estimate_example : estimate_tokens (prompt ∷ request ∷ reply ∷ []) ≡ 18
unfolding estimate_tokens message_tokens
estimate_example = refl

compact_messages-Kept_example :
    (kept : List Message) × (compact_messages 1 10 (prompt ∷ request ∷ reply ∷ request ∷ [])
      ≡ prompt ∷ kept)
    × Kept (min 1 (rounds (request ∷ reply ∷ request ∷ []))) (request ∷ reply ∷ request ∷ []) kept
unfolding estimate_tokens message_tokens
compact_messages-Kept_example =
    compact_messages-Kept 1 10 prompt request (reply ∷ request ∷ []) refl (omega arith)
      (omega arith) (omega arith)

abbrev turn : Turn
turn = (
  Content.blocks (Block.tool_use (codes "t1") ∷ []),
  Block.tool_result (codes "t1") (ToolContent.parts (Part.text_part (codes "queued") ∷ [])) ∷ [],
)

compact_messages-exchange_example :
    compact_messages 1 10 (conversation (Content.blocks (Block.image ∷ [])) (turn ∷ turn ∷ []))
    ≡ answer turn.1 ∷ exchange []
unfolding estimate_tokens message_tokens block_tokens tool_tokens part_tokens
compact_messages-exchange_example =
    compact_messages-exchange 10 (Content.blocks (Block.image ∷ [])) (turn ∷ []) turn.0 turn.1 []
      (omega arith)
