-- ===== src/Daemon/Rules/Fields.antt =====
-- What the rules of `src/agent/daemon/rule_runner.py` read in an event.
use hyprland_agent.Prelude.{
  ℕ, Text, ◌≡◌, refl, ap, ◌∙◌, sym, false, List, [], ◌∷◌, ◌++◌, ◌==◌, ==_iff, All, Bool-cases, inl,
  inr, arith,
}
use hyprland_agent.Schemas.{EventKind}
use hyprland_agent.Daemon.Rules.{comma, add_first, split, join, fields}

-- A text without a comma.
abbrev pub IsPlain : Text → Type 0
IsPlain = All (λ c. (c == comma) ≡ false)

split-append : (part rest : Text) → IsPlain part → split (part ++ comma ∷ rest) ≡ part ∷ split rest
unfolding split
split-append [] rest h = refl
split-append (c ∷ part) rest h = rw h.0 (ap (add_first c) (split-append part rest h.1))

-- A split text has a first part.
split-first : (t : Text) → (part : Text) × (parts : List Text) × (split t ≡ part ∷ parts)
unfolding split
split-first [] = ([], [], refl)
split-first (c ∷ cs) =
    let (part, parts, e) = split-first cs in
    elim (Bool-cases (c == comma)) [
      | inl cut ↦ ([], split cs, ground arith)
      | inr kept ↦ (c ∷ part, parts, ground arith)
    ]

join-add_first :
    (c : ℕ) (part : Text) (parts : List Text)
    → join (add_first c (part ∷ parts)) ≡ c ∷ join (part ∷ parts)
unfolding join
join-add_first c part [] = refl
join-add_first c part (other ∷ parts) = refl

join-cons_nil :
    (parts : List Text) (part : Text) → join ([] ∷ part ∷ parts) ≡ comma ∷ join (part ∷ parts)
unfolding join
join-cons_nil parts part = refl

-- To join a split text gives it back.
join-split : (t : Text) → join (split t) ≡ t
unfolding split join
join-split [] = refl
join-split (c ∷ cs) =
    let (part, parts, e) = split-first cs in
    let rest : join (part ∷ parts) ≡ cs = ap join (sym e) ∙ join-split cs in
    elim (Bool-cases (c == comma)) [
      | inl cut ↦
          rw (cut, e)
            (join-cons_nil parts part
              ∙ ap (◌∷◌ comma) rest
              ∙ ap (λ d. d ∷ cs) (sym ((==_iff c comma).0 cut)))
      | inr kept ↦ rw (kept, e) (join-add_first c part parts ∙ ap (◌∷◌ c) rest)
    ]

-- An event of an opened window carries its address, its workspace and its class, which have no
-- comma, and then its title, which may have commas: the class and the whole title are read.
pub open_window-fields :
    (address workspace class title : Text)
    → IsPlain address
    → IsPlain workspace
    → IsPlain class
    → fields EventKind.open_window
        (split (address ++ comma ∷ (workspace ++ comma ∷ (class ++ comma ∷ title))))
      ≡ (class, title)
unfolding fields
open_window-fields address workspace class title a w c =
    let (part, parts, e) = split-first title in
    ap (fields EventKind.open_window) (
      split-append address _ a
      ∙ ap (◌∷◌ address) (
          split-append workspace _ w
          ∙ ap (◌∷◌ workspace) (split-append class title c ∙ ap (◌∷◌ class) e)))
    ∙ ap (λ t. (class, t)) (ap join (sym e) ∙ join-split title)
