-- ===== src/Brain/Claude/Turns.antt =====
-- How many requests `decide` of `src/agent/brain/claude.py` makes, and the actions it returns.
use hyprland_agent.Prelude.{
  ℕ, zero, suc, ◌≤◌, ◌≡◌, refl, sym, ap, ◌∙◌, Text, Bool, true, false, Option, List, [], ◌∷◌, ◌++◌,
  append-nil, append_assoc, length, if◌then◌else◌, Bool-cases, inl, inr, arith,
}
use hyprland_agent.Schemas.{Action}
use hyprland_agent.Orchestrator.Exec.{Reply}
use hyprland_agent.Brain.Compact.{Message}
use hyprland_agent.Brain.Calls.{Desk}
use hyprland_agent.Brain.Claude.{
  Response, ContextConfig, Decided, Handled, handle_blocks, ends, extended, compacted, after_tools,
  after_response, decide_from, decide,
}

-- How many turns there are from turn `i` on, at most `n`: up to the first that ends the loop.
unfoldable pub turns : ℕ → (ℕ → Bool) → ℕ → ℕ
turns zero is_last i = 0
turns (suc n) is_last i = let rest = turns n is_last (suc i) in if is_last i then 1 else suc rest

-- The actions of `n` turns from turn `i` on.
unfoldable pub gather : ℕ → (ℕ → List Action) → ℕ → List Action
gather zero made i = []
gather (suc n) made i = made i ++ gather n made (suc i)

turns-le : (n : ℕ) (is_last : ℕ → Bool) (i : ℕ) → turns n is_last i ≤ n
unfolding turns
turns-le zero is_last i = omega arith
turns-le (suc n) is_last i = ground (arith, turns-le n is_last (suc i))

turns_last : (n : ℕ) (is_last : ℕ → Bool) (i : ℕ) → is_last i ≡ true → turns (suc n) is_last i ≡ 1
unfolding turns
turns_last n is_last i e = rw e

turns_next :
    (n : ℕ) (is_last : ℕ → Bool) (i : ℕ)
    → is_last i ≡ false
    → turns (suc n) is_last i ≡ suc (turns n is_last (suc i))
unfolding turns
turns_next n is_last i e = rw e

-- The loop returned the actions, after this many requests.
abbrev Took : ℕ → List Action → Decided → Type 0
Took n acts d = (d.0 ≡ Reply.ok acts) × (length d.1 ≡ n)

module _ (desk : Desk) (cfg : Option ContextConfig) (script : ℕ → Response) (made : ℕ → Handled)
    (works : (i : ℕ) → handle_blocks desk (script i).content ≡ Reply.ok (made i)) where
  abbrev is_last : ℕ → Bool
  is_last i = ends (script i) (made i).1

  after_last :
      (next : List Message → List Action → Decided) (sent : List Message) (acts : List Action)
      (i : ℕ)
      → is_last i ≡ true
      → after_response desk next sent acts (Reply.ok (script i))
        ≡ (Reply.ok (acts ++ (made i).0), sent ∷ [])
  unfolding after_response after_tools
  after_last next sent acts i e = rw (works i) (rw e)

  after_next :
      (next : List Message → List Action → Decided) (sent : List Message) (acts : List Action)
      (i : ℕ)
      → is_last i ≡ false
      → after_response desk next sent acts (Reply.ok (script i)) ≡ (
          let rest = next (extended sent (script i) (made i).1) (acts ++ (made i).0) in
          (rest.0, sent ∷ rest.1))
  unfolding after_response after_tools
  after_next next sent acts i e = rw (works i) (rw e)

  decide_from-Took :
      (n i : ℕ) (messages : List Message) (acts : List Action)
      → Took
          (turns n is_last i)
          (acts ++ gather (turns n is_last i) (λ j. (made j).0) i)
          (decide_from desk (λ j sent. Reply.ok (script j)) cfg n i messages acts)
  unfolding decide_from gather turns
  decide_from-Took zero i messages acts = (ap Reply.ok (sym (append-nil acts)), refl)
  decide_from-Took (suc n) i messages acts =
      let sent = compacted cfg messages in
      let next = decide_from desk (λ j sent'. Reply.ok (script j)) cfg n (suc i) in
      elim (Bool-cases (is_last i)) [
        | inl e ↦ rw (turns_last n is_last i e) (
            rw (after_last next sent acts i e)
              (ap (λ x. Reply.ok (acts ++ x)) (sym (append-nil (made i).0)), refl))
        | inr e ↦
            let ih =
              decide_from-Took n (suc i) (extended sent (script i) (made i).1)
                (acts ++ (made i).0) in
            rw (turns_next n is_last i e) (
              rw (after_next next sent acts i e)
                (ih.0 ∙ ap Reply.ok (append_assoc acts (made i).0 _), ap suc ih.1))
      ]

-- When the answers of the model are a given sequence whose tool calls all return: the decision
-- returns, after one request for each turn up to the first that ends the loop, at most 20; its
-- actions are those of these turns in their order. A turn ends the loop when the model says so or
-- no tool gave a result.
pub decide-turns :
    (desk : Desk) (cfg : Option ContextConfig) (script : ℕ → Response) (made : ℕ → Handled)
    (preamble task : Text)
    → ((i : ℕ) → handle_blocks desk (script i).content ≡ Reply.ok (made i))
    → let is_last : ℕ → Bool = λ i. ends (script i) (made i).1 in
      let d = decide desk (λ i sent. Reply.ok (script i)) cfg preamble task in
      (length d.1 ≡ turns 20 is_last 0)
      × (turns 20 is_last 0 ≤ 20)
      × (d.0 ≡ Reply.ok (gather (turns 20 is_last 0) (λ i. (made i).0) 0))
unfolding decide
decide-turns desk cfg script made preamble task works =
    let took = decide_from-Took desk cfg script made works 20 0 _ [] in
    (took.1, turns-le 20 (λ i. ends (script i) (made i).1) 0, took.0)
