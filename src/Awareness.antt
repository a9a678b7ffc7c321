-- ===== src/Awareness.antt =====
-- Loop detection, verification and working memory of a run: `src/agent/awareness/meta_cognition.py`
-- and `src/agent/awareness/working.py`.
pub mod Promise
mod Tests
use hyprland_agent.Prelude.{
  ℕ, ◌+◌, Text, codes, Bool, true, false, Option, none, some, List, [], ◌∷◌, ◌++◌, ltb, leb, length,
  count_if, text_eq, append_bounded, if◌then◌else◌,
}
use hyprland_agent.Schemas.{ActionKind, Action, ActionResult, Params}

-- `deque(maxlen=window)` of the keys, and the threshold.
pub record LoopDetector : Type 0 where
  pub history : List Text
  pub window : ℕ
  pub threshold : ℕ

abbrev pub new_detector : ℕ → ℕ → LoopDetector
new_detector window threshold = record { history = []; window = window; threshold = threshold }

-- `observe` on the key of the action, which `json.dumps` makes.
unfoldable pub observe : LoopDetector → Text → LoopDetector × Bool
observe d key =
    let history = append_bounded d.window d.history key in
    (record d { history = history }, leb d.threshold (count_if (λ k. text_eq k key) history))

abbrev pub reset_detector : LoopDetector → LoopDetector
reset_detector d = record d { history = [] }

-- `PostActionVerifier.needs`
abbrev pub needs : ActionKind → Bool
needs ActionKind.mouse_move = true
needs ActionKind.click = true
needs ActionKind.scroll = true
needs ActionKind.focus_window = true
needs ActionKind.dispatch = true
needs _ = false

abbrev pub annotate : ActionResult → Text → Text → ActionResult
annotate result before after = record result { pre_hash = some before; post_hash = some after }

pub record ActionEntry : Type 0 where
  pub kind : ActionKind
  pub params : Params
  pub result_summary : Option Text

abbrev pub max_entries : ℕ
max_entries = 50

abbrev pub pop_first : {A : Type 0} → List A → List A
pop_first [] = []
pop_first (x ∷ xs) = xs

-- `WorkingMemory.record`
unfoldable pub record_entry : List ActionEntry → ActionEntry → List ActionEntry
record_entry entries entry =
    let entries' = entries ++ entry ∷ [] in
    if ltb max_entries (length entries') then pop_first entries' else entries'
