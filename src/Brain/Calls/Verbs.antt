-- ===== src/Brain/Calls/Verbs.antt =====
-- The tools of the table of `src/agent/brain/openai_brain.py`, the computer-use verbs among them,
-- against the handlers of the orchestrator.
use hyprland_agent.Prelude.{
  Text, codes, text_eq, Bool, true, false, ◌||◌, Option, none, some, List, [], ◌∷◌, ◌≡◌, refl, All,
  text_key, if_both,
}
use hyprland_agent.Schemas.{ActionKind, Action, Value, Number}
use hyprland_agent.Orchestrator.Exec.{Reply}
use hyprland_agent.Orchestrator.Keys.{Complete}
use hyprland_agent.Brain.ActionMap.{
  act, move_to, click_with, remove_suffix, VerbArgs, scroll_by, verb_actions,
}

-- The verb returns actions that have the keys of their kinds.
unfoldable pub Maps : Reply (List Action) → Type 0
Maps r = (acts : List Action) × (r ≡ Reply.ok acts) × All Complete acts

made : (acts : List Action) → All Complete acts → Maps (Reply.ok acts)
unfolding Maps
made acts h = (acts, refl, h)

scroll_by-Maps :
    (sx sy : Number) (direction : Value) (amt : Number) (o : Option Number)
    → o ≡ some amt
    → Maps (scroll_by sx sy direction o)
unfolding scroll_by Maps
scroll_by-Maps sx sy direction amt o e = rw e (_, refl, ((refl, (refl, tt)), ((refl, tt), tt)))

pub verb_actions-Maps :
    (int : Value → Option Number) (verb : Text) (a : VerbArgs) (sx sy amt : Number)
    → int a.amount ≡ some amt
    → Maps (verb_actions int verb a sx sy)
unfolding verb_actions
verb_actions-Maps int verb a sx sy amt h =
    if_both Maps (text_eq verb (codes "screenshot")) _ _
      (made (act ActionKind.screenshot [] ∷ []) (tt, tt))
      (if_both Maps
        (text_eq verb (codes "left_click")
          || (text_eq verb (codes "right_click") || text_eq verb (codes "middle_click")))
        _ _
        (made (move_to sx sy ∷ click_with (remove_suffix (codes "_click") verb) ∷ [])
          ((refl, (refl, tt)), (tt, tt)))
        (if_both Maps (text_eq verb (codes "double_click")) _ _
          (made (move_to sx sy ∷ click_with (codes "left") ∷ click_with (codes "left") ∷ [])
            ((refl, (refl, tt)), (tt, (tt, tt))))
          (if_both Maps (text_eq verb (codes "mouse_move")) _ _
            (made (move_to sx sy ∷ []) ((refl, (refl, tt)), tt))
            (if_both Maps (text_eq verb (codes "type") || text_eq verb (codes "type_text")) _ _
              (made (act ActionKind.type_text ((codes "text", a.text) ∷ []) ∷ []) ((refl, tt), tt))
              (if_both Maps (text_eq verb (codes "key")) _ _
                (made (act ActionKind.key ((codes "combo", a.combo) ∷ []) ∷ []) ((refl, tt), tt))
                (if_both Maps (text_eq verb (codes "scroll")) _ _
                  (scroll_by-Maps sx sy a.direction amt (int a.amount) h) (made [] tt)))))))

-- The value under a key is a whole number, where there is one.
abbrev pub whole : Option Value → Bool
whole none = true
whole (some (Value.num n)) = true
whole (some (Value.null)) = false
whole (some (Value.flag b)) = false
whole (some (Value.text t)) = false

pub whole-or :
    (o : Option Value) (d : Number)
    → whole o ≡ true
    → (n : Number) × ((elim o as (λ x. Value) [ some v ↦ v | none ↦ Value.num d ]) ≡ Value.num n)
whole-or none d h = (d, refl)
whole-or (some (Value.num n)) d h = (n, refl)
whole-or (some (Value.null)) d h = cc
whole-or (some (Value.flag b)) d h = cc
whole-or (some (Value.text t)) d h = cc
