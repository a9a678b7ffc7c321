-- ===== src/Brain/Claude/Roles.antt =====
-- The roles in the messages that `decide` of `src/agent/brain/claude.py` sends.
use hyprland_agent.Prelude.{
  ℕ, zero, suc, ◌<◌, ◌≤◌, ◌≡◌, refl, sym, subst, Text, codes, text_eq, eq_of-text_eq, Bool, true,
  false, not, ◌&&◌, Option, none, some, List, [], ◌∷◌, ◌++◌, All, ◌==◌, if_both, Bool-cases, inl,
  inr, arith,
}
use hyprland_agent.Schemas.{Action}
use hyprland_agent.Orchestrator.Exec.{Reply}
use hyprland_agent.Brain.Compact.{
  Block, Message, has_role, is_user, compact_split, compact_messages,
}
use hyprland_agent.Brain.Compact.Rounds.{
  rounds, last_rounds, last_rounds_here, last_rounds_later, compact_rest_some_rounds,
}
use hyprland_agent.Brain.Calls.{Desk}
use hyprland_agent.Brain.Claude.{
  Response, ContextConfig, Decided, Handled, handle_blocks, ends, extended, compacted, after_tools,
  after_response, decide_from, decide,
}

-- The roles alternate, and the last message is the user's; the first is, where the flag says so.
unfoldable pub alternates : Bool → List Message → Bool
alternates user [] = not user
alternates true (m ∷ ms) = has_role (codes "user") m && alternates false ms
alternates false (m ∷ ms) = has_role (codes "assistant") m && alternates true ms

-- An assistant's message is no user's.
assistant_not_user :
    (role : Text) → text_eq role (codes "assistant") ≡ true → text_eq role (codes "user") ≡ false
assistant_not_user role h =
    subst (λ r. text_eq r (codes "user") ≡ false) (sym (eq_of-text_eq role (codes "assistant") h))
      refl

user_not_system :
    (role : Text) → text_eq role (codes "user") ≡ true → text_eq role (codes "system") ≡ false
user_not_system role h =
    subst (λ r. text_eq r (codes "system") ≡ false) (sym (eq_of-text_eq role (codes "user") h)) refl

last_rounds-alternates :
    (user : Bool) (k : ℕ) (ms : List Message)
    → 0 < k
    → k ≤ rounds ms
    → alternates user ms ≡ true
    → alternates true (last_rounds k ms) ≡ true
unfolding alternates
last_rounds-alternates user k [] h0 h a = absurd (omega arith)
last_rounds-alternates true k (m ∷ ms) h0 h a =
    elim (Bool-cases (rounds (m ∷ ms) == k && is_user m)) [
      | inl e ↦ rw (last_rounds_here k m ms e) a
      | inr e ↦
          rw (last_rounds_later k m ms e)
            (last_rounds-alternates false k ms h0 (ground arith) (ground arith))
    ]
last_rounds-alternates false k (m ∷ ms) h0 h a =
    let other = assistant_not_user m.role (ground arith) in
    rw (last_rounds_later k m ms (ground arith))
      (last_rounds-alternates true k ms h0 (ground arith) (ground arith))

-- Two messages more, of the assistant and of the user.
alternates-extended :
    (user : Bool) (messages : List Message) (response : Response) (results : List Block)
    → alternates user messages ≡ true
    → alternates user (extended messages response results) ≡ true
unfolding alternates
alternates-extended true [] response results a = cc
alternates-extended false [] response results a = refl
alternates-extended true (m ∷ ms) response results a =
    ground (arith, alternates-extended false ms response results)
alternates-extended false (m ∷ ms) response results a =
    ground (arith, alternates-extended true ms response results)

compact_split-alternates :
    (keep_rounds : ℕ) (ms : List Message)
    → alternates true ms ≡ true
    → alternates true (compact_split keep_rounds ms) ≡ true
unfolding alternates compact_split
compact_split-alternates keep_rounds [] a = a
compact_split-alternates keep_rounds (m ∷ ms) a =
    let no_prompt = user_not_system m.role (ground arith) in
    let kept = compact_rest_some_rounds keep_rounds (m ∷ ms) (ground arith) in
    rw no_prompt (rw kept.3 (last_rounds-alternates true kept.0 (m ∷ ms) kept.1 kept.2 a))

compacted-alternates :
    (cfg : Option ContextConfig) (ms : List Message)
    → alternates true ms ≡ true
    → alternates true (compacted cfg ms) ≡ true
unfolding compact_messages
compacted-alternates none ms a =
    if_both (λ r. alternates true r ≡ true) _ _ _ a (compact_split-alternates 3 ms a)
compacted-alternates (some cfg) ms a =
    if_both (λ r. alternates true r ≡ true) _ _ _ a (compact_split-alternates cfg.keep_rounds ms a)

abbrev Alternates : Decided → Type 0
Alternates d = All (λ sent. alternates true sent ≡ true) d.1

module _ (desk : Desk) where
  after_tools-Alternates :
      (next : List Message → List Action → Decided) (sent : List Message) (acts : List Action)
      (response : Response) (handled : Reply Handled)
      → ((more : List Message) (acts' : List Action)
          → alternates true more ≡ true
          → Alternates (next more acts'))
      → alternates true sent ≡ true
      → Alternates (after_tools next sent acts response handled)
  unfolding after_tools
  after_tools-Alternates next sent acts response (Reply.failed e) go a = tt
  after_tools-Alternates next sent acts response (Reply.ok (more, results)) go a =
      if_both Alternates (ends response results) _ _ tt (
        go (extended sent response results) (acts ++ more)
          (alternates-extended true sent response results a))

  after_response-Alternates :
      (next : List Message → List Action → Decided) (sent : List Message) (acts : List Action)
      (reply : Reply Response)
      → ((more : List Message) (acts' : List Action)
          → alternates true more ≡ true
          → Alternates (next more acts'))
      → alternates true sent ≡ true
      → Alternates (after_response desk next sent acts reply)
  unfolding after_response
  after_response-Alternates next sent acts (Reply.failed e) go a = (a, tt)
  after_response-Alternates next sent acts (Reply.ok response) go a =
      (a, after_tools-Alternates next sent acts response (handle_blocks desk response.content) go a)

  decide_from-Alternates :
      (client : ℕ → List Message → Reply Response) (cfg : Option ContextConfig) (n i : ℕ)
      (messages : List Message) (acts : List Action)
      → alternates true messages ≡ true
      → Alternates (decide_from desk client cfg n i messages acts)
  unfolding decide_from
  decide_from-Alternates client cfg zero i messages acts a = tt
  decide_from-Alternates client cfg (suc n) i messages acts a =
      let b = compacted-alternates cfg messages a in
      after_response-Alternates (decide_from desk client cfg n (suc i)) (compacted cfg messages)
        acts (client i (compacted cfg messages)) (decide_from-Alternates client cfg n (suc i)) b

-- Whatever the model answers, whatever the tools do and however the context is configured: in
-- the messages of every request the roles alternate from a user message on to a user message,
-- compaction included.
pub decide-Alternates :
    (desk : Desk) (client : ℕ → List Message → Reply Response) (cfg : Option ContextConfig)
    (preamble task : Text)
    → Alternates (decide desk client cfg preamble task)
unfolding decide alternates
decide-Alternates desk client cfg preamble task =
    decide_from-Alternates desk client cfg 20 0 _ [] refl
