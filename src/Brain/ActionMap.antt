-- ===== src/Brain/ActionMap.antt =====
-- `src/agent/brain/_action_map.py`: the actions of a computer-use verb.
use hyprland_agent.Prelude.{
  ℕ, zero, suc, ◌-◌, ◌*◌, Text, codes, text_eq, Bool, true, false, ◌||◌, Option, none, some, List,
  [], ◌∷◌, length, take, drop, if◌then◌else◌,
}
use hyprland_agent.Schemas.{ActionKind, Action, Number, Value, Params}
use hyprland_agent.Orchestrator.Exec.{Error, Reply}

module _ {A B : Type 0} where
  -- What follows a call that returned; an exception ends the function.
  unfoldable pub and_then : Reply A → (A → Reply B) → Reply B
  and_then (Reply.ok a) f = f a
  and_then (Reply.failed e) f = Reply.failed e

-- The keyword arguments. A number is whole; any other value is one that `*` or `int` refuses.
pub record VerbArgs : Type 0 where
  pub x : Value
  pub y : Value
  pub text : Value
  pub combo : Value
  pub direction : Value
  pub amount : Value
  pub scale_x : ℕ
  pub scale_y : ℕ

-- `s.removesuffix(suffix)`
unfoldable pub remove_suffix : Text → Text → Text
remove_suffix suffix s =
    let n = length s - length suffix in if text_eq (drop n s) suffix then take n s else s

abbrev pub scale_whole : ℕ → Number → Number
scale_whole scale (Number.nonneg n) = Number.nonneg (n * scale)
scale_whole zero (Number.neg n) = Number.nonneg 0
scale_whole (suc scale) (Number.neg n) = Number.neg (suc n * suc scale - 1)

-- `int(x * scale)`
abbrev pub scaled : ℕ → Value → Reply Number
scaled scale (Value.num n) = Reply.ok (scale_whole scale n)
scaled scale (Value.flag true) = Reply.ok (Number.nonneg scale)
scaled scale (Value.flag false) = Reply.ok (Number.nonneg 0)
scaled scale (Value.null) = Reply.failed Error.type_error
scaled scale (Value.text t) = Reply.failed Error.type_error

-- `-amt`
abbrev pub negated : Number → Number
negated (Number.nonneg zero) = Number.nonneg 0
negated (Number.nonneg (suc n)) = Number.neg n
negated (Number.neg n) = Number.nonneg (suc n)

abbrev pub value_is : Text → Value → Bool
value_is t (Value.text s) = text_eq s t
value_is t (Value.null) = false
value_is t (Value.flag b) = false
value_is t (Value.num n) = false

abbrev pub act : ActionKind → Params → Action
act k p = record { kind = k; params = p }

abbrev pub move_to : Number → Number → Action
move_to sx sy =
    act ActionKind.mouse_move ((codes "x", Value.num sx) ∷ (codes "y", Value.num sy) ∷ [])

abbrev pub click_with : Text → Action
click_with button = act ActionKind.click ((codes "button", Value.text button) ∷ [])

-- `int(amount)`, which may raise
unfoldable pub scroll_by : Number → Number → Value → Option Number → Reply (List Action)
scroll_by sx sy direction none = Reply.failed Error.type_error
scroll_by sx sy direction (some amt) =
    let signed =
      if value_is (codes "up") direction || value_is (codes "left") direction
      then negated amt
      else amt in
    let horizontal = value_is (codes "left") direction || value_is (codes "right") direction in
    Reply.ok (
      move_to sx sy
      ∷ act ActionKind.scroll
          ((codes "amount", Value.num signed) ∷ (codes "horizontal", Value.flag horizontal) ∷ [])
      ∷ [])

module _ (int : Value → Option Number) where
  unfoldable pub verb_actions : Text → VerbArgs → Number → Number → Reply (List Action)
  verb_actions verb a sx sy =
      if text_eq verb (codes "screenshot")
      then Reply.ok (act ActionKind.screenshot [] ∷ [])
      else if text_eq verb (codes "left_click")
          || (text_eq verb (codes "right_click") || text_eq verb (codes "middle_click"))
      then Reply.ok (move_to sx sy ∷ click_with (remove_suffix (codes "_click") verb) ∷ [])
      else if text_eq verb (codes "double_click")
      then Reply.ok (move_to sx sy ∷ click_with (codes "left") ∷ click_with (codes "left") ∷ [])
      else if text_eq verb (codes "mouse_move")
      then Reply.ok (move_to sx sy ∷ [])
      else if text_eq verb (codes "type") || text_eq verb (codes "type_text")
      then Reply.ok (act ActionKind.type_text ((codes "text", a.text) ∷ []) ∷ [])
      else if text_eq verb (codes "key")
      then Reply.ok (act ActionKind.key ((codes "combo", a.combo) ∷ []) ∷ [])
      else if text_eq verb (codes "scroll")
      then scroll_by sx sy a.direction (int a.amount)
      else Reply.ok []

  unfoldable pub computer_actions : Text → VerbArgs → Reply (List Action)
  computer_actions verb a =
      and_then (scaled a.scale_x a.x)
        (λ sx. and_then (scaled a.scale_y a.y) (λ sy. verb_actions verb a sx sy))
