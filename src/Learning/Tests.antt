-- ===== src/Learning/Tests.antt =====
-- Runs of `src/agent/learning`, and the theorems about it at inputs.
use hyprland_agent.Prelude.{
  ℕ, ◌+◌, ◌≡◌, refl, Bool, not, ◌==◌, Text, codes, none, some, [], ◌∷◌, ◌++◌,
}
use hyprland_agent.Schemas.{Number}
use hyprland_agent.Safety.Allowlist.{Misses}
use hyprland_agent.Daemon.Learned.{Proposals, RuleRow, upsert_allowlist_proposal, upsert_rows}
use hyprland_agent.Daemon.Learned.Counts.{hits_of}
use hyprland_agent.Learning.Api.{Learned, Language, approve}
use hyprland_agent.Learning.Decided.{approve-again}
use hyprland_agent.Learning.Miner.{mine, upsert_misses, titles_of, successes, mine-titles_of}

-- Two windows of one class were missed, one of them four times.
abbrev misses : Misses
misses =
    ((codes "foot", codes "a"), 4)
    ∷ ((codes "foot", codes "b"), 1)
    ∷ ((codes "mpv", codes "c"), 1)
    ∷ []

abbrev table : Proposals
table = record { rows = []; next_id = 1 }

-- The second update fails.
abbrev works : ℕ → Bool
works i = not (i == 1)

mined : hits_of (codes "foot") (codes "*") (mine misses table works (λ i. i)).0.1.rows ≡ 1
unfolding mine upsert_misses upsert_allowlist_proposal upsert_rows
mined = refl

mine-titles_of_example :
    let ((n, q), left) = mine misses table works (λ i. i) in
    (n ≡ successes misses works 0)
    × (hits_of (codes "foot") (codes "*") q.rows
        ≡ hits_of (codes "foot") (codes "*") table.rows + titles_of (codes "foot") misses works 0)
    × (mine left q works (λ i. i) ≡ ((0, q), []))
mine-titles_of_example = mine-titles_of misses table works works (λ i. i) (codes "foot") tt

abbrev lang : Language Text
lang = record { str = λ n. codes "1"; int = λ t. some 1; rules_of = λ t. t ∷ [] }

abbrev rule : RuleRow
rule = record {
  rule_id = codes "r";
  yaml = codes "on: openwindow";
  confidence = Number.nonneg 1;
  hit_count = 0;
  source_runs = [];
  status = codes "proposed";
  proposed_at = 5;
  decided_at = none;
}

abbrev learned : Learned Text
learned = record {
  proposals = table;
  rules = rule ∷ [];
  skills = [];
  rules_file = [];
  allow_file = [];
}

approve-again_example :
    (approve lang
        (codes "skill")
        (codes "r")
        9
        (approve lang (codes "skill") (codes "r") 8 learned).0
      ≡ approve lang (codes "skill") (codes "r") 8 learned)
    × (approve lang
          (codes "allowlist")
          (codes "r")
          9
          (approve lang (codes "allowlist") (codes "r") 8 learned).0
        ≡ approve lang (codes "allowlist") (codes "r") 8 learned)
    × ((approve lang
          (codes "rule")
          (codes "r")
          9
          (approve lang (codes "rule") (codes "r") 8 learned).0).0.rules_file
        ≡ [] ++ (codes "on: openwindow" ∷ []) ++ (codes "on: openwindow" ∷ []))
approve-again_example = approve-again lang (codes "r") 8 9 learned rule refl
