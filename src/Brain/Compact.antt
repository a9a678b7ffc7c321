-- ===== src/Brain/Compact.antt =====
-- `estimate_tokens` and `compact_messages` of `src/agent/brain/_common.py`.
pub mod Rounds
pub mod Kept
pub mod Tests
use hyprland_agent.Prelude.{
  ℕ, zero, suc, ◌+◌, ◌-◌, ◌/◌, Text, codes, text_eq, Bool, true, false, List, [], ◌∷◌, ◌++◌, length,
  drop, ltb, leb, ◌==◌, ◌||◌, if◌then◌else◌,
}

-- A part of the content of a tool result.
pub data Part : Type 0 where
  text_part : Text → Part
  other_part : Part

pub data ToolContent : Type 0 where
  plain : Text → ToolContent
  parts : List Part → ToolContent
  opaque : ToolContent

-- A block of a message. An object that is no dict, such as a request of the assistant for a tool,
-- is one of the other blocks.
pub data Block : Type 0 where
  text_block : Text → Block
  image : Block
  tool_result : Text → ToolContent → Block
  tool_use : Text → Block
  other_block : Block

pub data Content : Type 0 where
  absent : Content
  string : Text → Content
  blocks : List Block → Content

pub record Message : Type 0 where
  pub role : Text
  pub content : Content

abbrev pub chars_per_token : ℕ
chars_per_token = 4

abbrev pub tokens_per_megapixel : ℕ
tokens_per_megapixel = 1000

unfoldable pub part_tokens : List Part → ℕ
part_tokens [] = 0
part_tokens (text_part t ∷ more) = length t / chars_per_token + part_tokens more
part_tokens (other_part ∷ more) = part_tokens more

unfoldable pub tool_tokens : ToolContent → ℕ
unfolding part_tokens
tool_tokens (plain t) = length t / chars_per_token
tool_tokens (parts ps) = part_tokens ps
tool_tokens opaque = 0

unfoldable pub block_tokens : List Block → ℕ
unfolding tool_tokens
block_tokens [] = 0
block_tokens (text_block t ∷ more) = length t / chars_per_token + block_tokens more
block_tokens (image ∷ more) = tokens_per_megapixel / 2 + block_tokens more
block_tokens (tool_result id content ∷ more) = tool_tokens content + block_tokens more
block_tokens (tool_use id ∷ more) = block_tokens more
block_tokens (other_block ∷ more) = block_tokens more

-- Each message counts 4 more; without content it counts 4.
unfoldable pub message_tokens : Content → ℕ
unfolding block_tokens
message_tokens absent = 4
message_tokens (string t) = length t / chars_per_token + 4
message_tokens (blocks bs) = block_tokens bs + 4

unfoldable pub estimate_tokens : List Message → ℕ
unfolding message_tokens
estimate_tokens [] = 0
estimate_tokens (m ∷ ms) = message_tokens m.content + estimate_tokens ms

abbrev pub has_role : Text → Message → Bool
has_role role m = text_eq m.role role

abbrev pub is_user : Message → Bool
is_user m = has_role (codes "user") m

-- `for i, msg in enumerate(rest)`, the indices of the user messages.
unfoldable pub round_starts : ℕ → List Message → List ℕ
round_starts i [] = []
round_starts i (m ∷ ms) = if is_user m then i ∷ round_starts (i + 1) ms else round_starts (i + 1) ms

-- The element at an index of a list that has one there.
abbrev pub item : List ℕ → ℕ → ℕ
item [] i = 0
item (x ∷ xs) zero = x
item (x ∷ xs) (suc i) = item xs i

-- `round_starts[-keep_rounds]`, where index -0 is the first.
abbrev pub keep_index : ℕ → ℕ → ℕ
keep_index keep_rounds count =
    if ltb keep_rounds count then if keep_rounds == 0 then 0 else count - keep_rounds else 0

-- What is kept of the messages behind the system prompt.
unfoldable pub compact_rest : ℕ → List Message → List ℕ → List Message
compact_rest keep_rounds rest [] = rest
compact_rest keep_rounds rest (start ∷ starts) =
    drop (item (start ∷ starts) (keep_index keep_rounds (length (start ∷ starts)))) rest

unfoldable pub compact_split : ℕ → List Message → List Message
compact_split keep_rounds [] = []
compact_split keep_rounds (m ∷ ms) =
    if has_role (codes "system") m
    then m ∷ compact_rest keep_rounds ms (round_starts 0 ms)
    else compact_rest keep_rounds (m ∷ ms) (round_starts 0 (m ∷ ms))

-- A list of at most one message stays as it is.
unfoldable pub compact_messages : ℕ → ℕ → List Message → List Message
compact_messages keep_rounds budget_tokens messages =
    if leb (estimate_tokens messages) budget_tokens || leb (length messages) 1
    then messages
    else compact_split keep_rounds messages
