-- ===== src/Daemon/Learned/Tests.antt =====
-- Runs of the definitions for the learning tables.
use hyprland_agent.Prelude.{codes, ◌+◌, ◌≡◌, refl, none, some, List, [], ◌∷◌, count_if}
use hyprland_agent.Schemas.{Number}
use hyprland_agent.Daemon.Learned.{
  Proposals, RuleRow, find_rule, insert_learned_rule, update_learned_rule_status,
}
use hyprland_agent.Daemon.Learned.Counts.{
  Miss, is_miss, hits_of, upsert_all, hits_of-upsert_all, decision-insert_learned_rule,
}

abbrev misses : List Miss
misses =
    record { app_class = codes "foot"; title = codes "a"; seen_at = 1 }
    ∷ record { app_class = codes "kitty"; title = codes "a"; seen_at = 2 }
    ∷ record { app_class = codes "foot"; title = codes "a"; seen_at = 3 }
    ∷ []

abbrev no_proposals : Proposals
no_proposals = record { rows = []; next_id = 1 }

hits_of-upsert_all_example :
    hits_of (codes "foot") (codes "a") (upsert_all no_proposals misses).rows
    ≡ hits_of (codes "foot") (codes "a") [] + count_if (is_miss (codes "foot") (codes "a")) misses
hits_of-upsert_all_example = hits_of-upsert_all no_proposals (codes "foot") (codes "a") misses tt

abbrev rule : RuleRow
rule = record {
  rule_id = codes "r";
  yaml = codes "y";
  confidence = Number.nonneg 8;
  hit_count = 0;
  source_runs = codes "[]";
  status = codes "proposed";
  proposed_at = 1;
  decided_at = none;
}

decision-insert_learned_rule_example :
    find_rule (codes "r") (
      insert_learned_rule
        (update_learned_rule_status (rule ∷ []) (codes "r") (codes "rejected") 2)
        (codes "r")
        (codes "z")
        (Number.nonneg 9)
        (codes "[]")
        3)
    ≡ some (record rule { status = codes "rejected"; decided_at = some 2 })
decision-insert_learned_rule_example =
    decision-insert_learned_rule (rule ∷ []) (codes "r") (codes "rejected") 2 rule refl (codes "z")
      (Number.nonneg 9) (codes "[]") 3
