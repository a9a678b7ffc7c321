-- ===== src/Awareness/Promise.antt =====
-- What the detector and the memory of `src/agent/awareness` promise about a whole run.
use hyprland_agent.Prelude.{
  ℕ, ◌-◌, ◌≤◌, ◌≡◌, refl, ap, sym, ◌∙◌, Text, List, [], ◌∷◌, ◌++◌, Bool-cases, inl, inr, leb, ltb,
  length, length-append, length-drop, last, last_short, last-last_append, append-nil, append_assoc,
  drop, count_if, text_eq, append_bounded, append_all, append_all-nil, arith,
}
use hyprland_agent.Awareness.{
  LoopDetector, new_detector, observe, ActionEntry, max_entries, pop_first, record_entry,
}

-- The detector after a series of keys.
abbrev pub observe_all : LoopDetector → List Text → LoopDetector
observe_all d [] = d
observe_all d (key ∷ keys) = observe_all (observe d key).0 keys

abbrev pub record_all : List ActionEntry → List ActionEntry → List ActionEntry
record_all entries [] = entries
record_all entries (entry ∷ more) = record_all (record_entry entries entry) more

observe_all-history :
    (d : LoopDetector) (keys : List Text)
    → observe_all d keys ≡ record d { history = append_all d.window d.history keys }
unfolding observe append_all
observe_all-history d [] = refl
observe_all-history d (key ∷ keys) = observe_all-history (observe d key).0 keys

-- After any series of observed actions, the detector reports an action stuck exactly when the last
-- `window` actions, that action included, hold it `threshold` times or more.
pub observe-count :
    (window threshold : ℕ) (keys : List Text) (key : Text)
    → (observe (observe_all (new_detector window threshold) keys) key).1
      ≡ leb threshold (count_if (λ k. text_eq k key) (last window (keys ++ key ∷ [])))
unfolding observe append_bounded
observe-count window threshold keys key =
    ap (λ d. (observe d key).1) (observe_all-history (new_detector window threshold) keys)
    ∙ ap (λ h. leb threshold (count_if (λ k. text_eq k key) (last window (h ++ key ∷ []))))
        (append_all-nil window keys)
    ∙ ap (λ h. leb threshold (count_if (λ k. text_eq k key) h))
        (last-last_append window keys (key ∷ []))

pop_first-drop : {A : Type 0} (xs : List A) → pop_first xs ≡ drop 1 xs
pop_first-drop [] = refl
pop_first-drop (x ∷ xs) = refl

record_entry-bounded :
    (entries : List ActionEntry) (entry : ActionEntry)
    → length entries ≤ max_entries
    → record_entry entries entry ≡ last max_entries (entries ++ entry ∷ [])
unfolding record_entry
record_entry-bounded entries entry h =
    let all = entries ++ entry ∷ [] in
    let count = length-append entries (entry ∷ []) in
    elim (Bool-cases (ltb max_entries (length all))) [
      | inl over ↦ rw over (
          pop_first-drop all
          ∙ ap (λ k. drop k all)
              (let e : 1 ≡ length all - max_entries = ground (arith, count) in e))
      | inr fits ↦ rw fits (sym (last_short max_entries all (ground arith)))
    ]

record_entry-last :
    (all : List ActionEntry) (entry : ActionEntry)
    → record_entry (last max_entries all) entry ≡ last max_entries (all ++ entry ∷ [])
record_entry-last all entry =
    record_entry-bounded (last max_entries all) entry
      (omega (arith, length-drop (length all - 50) all))
    ∙ last-last_append max_entries all (entry ∷ [])

record_all-from :
    (all entries : List ActionEntry)
    → record_all (last max_entries all) entries ≡ last max_entries (all ++ entries)
record_all-from all [] = ap (last max_entries) (sym (append-nil all))
record_all-from all (entry ∷ more) =
    ap (λ es. record_all es more) (record_entry-last all entry)
    ∙ record_all-from (all ++ entry ∷ []) more
    ∙ ap (last max_entries) (append_assoc all (entry ∷ []) more)

-- A new working memory in which a series of actions is recorded holds the last 50 of them.
pub record_all-last :
    (entries : List ActionEntry) → record_all [] entries ≡ last max_entries entries
record_all-last entries = record_all-from [] entries
