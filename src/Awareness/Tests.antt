-- ===== src/Awareness/Tests.antt =====
-- Runs of the definitions for `src/agent/awareness`.
use hyprland_agent.Prelude.{
  codes, ◌≡◌, none, [], ◌∷◌, ◌++◌, last, leb, count_if, text_eq, Text, List,
}
use hyprland_agent.Schemas.{ActionKind}
use hyprland_agent.Awareness.{new_detector, observe, ActionEntry, max_entries}
use hyprland_agent.Awareness.Promise.{observe_all, observe-count, record_all, record_all-last}

abbrev clicks : List Text
clicks = codes "click" ∷ codes "key" ∷ codes "click" ∷ []

observe-count_example :
    (observe (observe_all (new_detector 6 3) clicks) (codes "click")).1
    ≡ leb 3 (count_if (λ k. text_eq k (codes "click")) (last 6 (clicks ++ codes "click" ∷ [])))
observe-count_example = observe-count 6 3 clicks (codes "click")

abbrev click_entry : ActionEntry
click_entry = record { kind = ActionKind.click; params = []; result_summary = none }

record_all-last_example :
    record_all [] (click_entry ∷ click_entry ∷ [])
    ≡ last max_entries (click_entry ∷ click_entry ∷ [])
record_all-last_example = record_all-last (click_entry ∷ click_entry ∷ [])
