-- ===== src/Brain/Compact/Kept.antt =====
-- The list that `compact_messages` of `src/agent/brain/_common.py` returns, of any conversation and of
-- the conversations that `decide` of `src/agent/brain/claude.py` makes.
use hyprland_agent.Prelude.{
  ℕ, suc, ◌+◌, ◌<◌, ◌≤◌, min, codes, ◌≡◌, refl, ap, ◌∙◌, true, List, [], ◌∷◌, ◌++◌, length,
  length-append, lt→leb, arith,
}
use hyprland_agent.Brain.Compact.{
  Block, Message, Content, has_role, round_starts, compact_rest, compact_split, compact_messages,
  estimate_tokens,
}
use hyprland_agent.Brain.Compact.Rounds.{
  rounds, last_rounds, Kept, compact_rest-Kept, compact_rest-last_rounds,
}

compact_messages_over :
    (keep_rounds budget_tokens : ℕ) (messages : List Message)
    → budget_tokens < estimate_tokens messages
    → 1 < length messages
    → compact_messages keep_rounds budget_tokens messages ≡ compact_split keep_rounds messages
unfolding compact_messages
compact_messages_over keep_rounds budget_tokens messages h h1 =
    ground (arith, lt→leb (estimate_tokens messages) budget_tokens h)

-- For a conversation of a system prompt and other messages over the budget, where at least one
-- round is to be kept and there is a user message: what is returned is the system prompt and a
-- suffix of the rest, which begins with a user message and has as many rounds as are to be kept, or
-- all where there are fewer.
pub compact_messages-Kept :
    (keep_rounds budget_tokens : ℕ) (prompt m : Message) (ms : List Message)
    → has_role (codes "system") prompt ≡ true
    → 0 < keep_rounds
    → 0 < rounds (m ∷ ms)
    → budget_tokens < estimate_tokens (prompt ∷ m ∷ ms)
    → (kept : List Message) × (compact_messages keep_rounds budget_tokens (prompt ∷ m ∷ ms)
        ≡ prompt ∷ kept)
      × Kept (min keep_rounds (rounds (m ∷ ms))) (m ∷ ms) kept
unfolding compact_split
compact_messages-Kept keep_rounds budget_tokens prompt m ms is_system h0 h1 over = (
  compact_rest keep_rounds (m ∷ ms) (round_starts 0 (m ∷ ms)),
  compact_messages_over keep_rounds budget_tokens (prompt ∷ m ∷ ms) over (omega arith)
      ∙ rw is_system,
  compact_rest-Kept keep_rounds (m ∷ ms) h0 h1,
)

-- One turn of the conversation: the content of the assistant, and the results of its tools.
abbrev pub Turn : Type 0
Turn = Content × List Block

abbrev pub answer : List Block → Message
answer results = record { role = codes "user"; content = Content.blocks results }

abbrev pub exchange : List Turn → List Message
exchange [] = []
exchange ((said, results) ∷ turns) =
    record { role = codes "assistant"; content = said } ∷ answer results ∷ exchange turns

abbrev pub conversation : Content → List Turn → List Message
conversation task turns = record { role = codes "user"; content = task } ∷ exchange turns

rounds-exchange : (turns : List Turn) → rounds (exchange turns) ≡ length turns
rounds-exchange [] = refl
rounds-exchange ((said, results) ∷ turns) = ap suc (rounds-exchange turns)

last_rounds-exchange :
    (k : ℕ) (earlier : List Turn) (said : Content) (results : List Block) (later : List Turn)
    → suc (length later) ≡ k
    → last_rounds k (exchange (earlier ++ (said, results) ∷ later))
      ≡ answer results ∷ exchange later
unfolding last_rounds
last_rounds-exchange k [] said results later h = ground (arith, rounds-exchange later)
last_rounds-exchange k ((s, r) ∷ earlier) said results later h = ground (
  arith,
  rounds-exchange (earlier ++ (said, results) ∷ later),
  length-append earlier ((said, results) ∷ later),
  last_rounds-exchange k earlier said results later h,
)

length-exchange : (turns : List Turn) → length (exchange turns) ≡ length turns + length turns
length-exchange [] = refl
length-exchange (turn ∷ turns) = omega (arith, length-exchange turns)

last_rounds_task :
    (k : ℕ) (task : Content) (turns : List Turn)
    → k ≤ length turns
    → last_rounds k (conversation task turns) ≡ last_rounds k (exchange turns)
unfolding last_rounds
last_rounds_task k task turns h = ground (arith, rounds-exchange turns)

-- For a conversation of the Claude brain over the budget, where at least one round is to be kept and
-- there are that many turns: what is returned begins with the tool results of the first turn that is
-- kept. The task is gone, and the request of the assistant that these results answer is gone.
pub compact_messages-exchange :
    (budget_tokens : ℕ) (task : Content) (earlier : List Turn) (said : Content)
    (results : List Block) (later : List Turn)
    → budget_tokens < estimate_tokens (conversation task (earlier ++ (said, results) ∷ later))
    → compact_messages
        (suc (length later))
        budget_tokens
        (conversation task (earlier ++ (said, results) ∷ later))
      ≡ answer results ∷ exchange later
unfolding compact_split
compact_messages-exchange budget_tokens task earlier said results later over =
    let turns = earlier ++ (said, results) ∷ later in
    let n = rounds-exchange turns in
    let size = length-append earlier ((said, results) ∷ later) in
    compact_messages_over (suc (length later)) budget_tokens (conversation task turns) over
      (ground (arith, length-exchange turns, size))
    ∙ compact_rest-last_rounds (suc (length later)) (conversation task turns) (omega arith)
        (ground (arith, n, size))
    ∙ ap (λ k. last_rounds k (conversation task turns))
        (let e : min (suc (length later)) (rounds (conversation task turns)) ≡ suc (length later) =
            ground (arith, n, size) in
          e)
    ∙ last_rounds_task (suc (length later)) task turns (omega (arith, size))
    ∙ last_rounds-exchange (suc (length later)) earlier said results later refl
