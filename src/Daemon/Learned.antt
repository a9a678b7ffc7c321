-- ===== src/Daemon/Learned.antt =====
-- What the agent learns, in `src/agent/daemon/store.py`: the tables of allowlist proposals, of learned
-- rules and of skills. A key that a table holds once is found by the first row.
pub mod Counts
mod Tests
use hyprland_agent.Prelude.{
  ℕ, ◌+◌, Text, codes, text_eq, Bool, true, false, ◌&&◌, Option, none, some, List, [], ◌∷◌, ◌++◌,
  ◌==◌, if◌then◌else◌,
}
use hyprland_agent.Schemas.{Number}

pub record ProposalRow : Type 0 where
  pub proposal_id : ℕ
  pub app_class : Text
  pub title_pat : Text
  pub hit_count : ℕ
  pub last_seen : ℕ
  pub status : Text

-- The rows, and the next value of the key.
pub record Proposals : Type 0 where
  pub rows : List ProposalRow
  pub next_id : ℕ

abbrev pub pending : Text
pending = codes "pending"

abbrev pub is_proposal : Text → Text → ProposalRow → Bool
is_proposal app_class title_pat row =
    text_eq row.app_class app_class && text_eq row.title_pat title_pat

-- `ON CONFLICT DO UPDATE ... WHERE status = 'pending'`
abbrev pub hit : ℕ → ProposalRow → ProposalRow
hit now row =
    if text_eq row.status pending
    then record row { hit_count = row.hit_count + 1; last_seen = now }
    else row

abbrev pub new_proposal : ℕ → Text → Text → ℕ → ProposalRow
new_proposal id app_class title_pat now = record {
  proposal_id = id;
  app_class = app_class;
  title_pat = title_pat;
  hit_count = 1;
  last_seen = now;
  status = pending;
}

unfoldable pub upsert_rows : ℕ → Text → Text → ℕ → List ProposalRow → List ProposalRow
upsert_rows id app_class title_pat now [] = new_proposal id app_class title_pat now ∷ []
upsert_rows id app_class title_pat now (row ∷ rows) =
    if is_proposal app_class title_pat row
    then hit now row ∷ rows
    else row ∷ upsert_rows id app_class title_pat now rows

-- A key that a conflict leaves unused is taken all the same.
unfoldable pub upsert_allowlist_proposal : Proposals → Text → Text → ℕ → Proposals
upsert_allowlist_proposal t app_class title_pat now = record {
  rows = upsert_rows t.next_id app_class title_pat now t.rows;
  next_id = t.next_id + 1;
}

unfoldable pub set_proposal_status : ℕ → Text → List ProposalRow → List ProposalRow
set_proposal_status id status [] = []
set_proposal_status id status (row ∷ rows) =
    (if row.proposal_id == id then record row { status = status } else row)
    ∷ set_proposal_status id status rows

abbrev pub update_allowlist_proposal_status : Proposals → ℕ → Text → Proposals
update_allowlist_proposal_status t id status = record t {
  rows = set_proposal_status id status t.rows;
}

pub record RuleRow : Type 0 where
  pub rule_id : Text
  pub yaml : Text
  pub confidence : Number
  pub hit_count : ℕ
  pub source_runs : Text
  pub status : Text
  pub proposed_at : ℕ
  pub decided_at : Option ℕ

abbrev pub find_rule : Text → List RuleRow → Option RuleRow
find_rule id [] = none
find_rule id (row ∷ rows) = if text_eq row.rule_id id then some row else find_rule id rows

-- `INSERT OR IGNORE`: a rule that is there stays as it is.
unfoldable pub insert_learned_rule : List RuleRow → Text → Text → Number → Text → ℕ → List RuleRow
insert_learned_rule [] id yaml confidence source_runs now =
    record {
      rule_id = id;
      yaml = yaml;
      confidence = confidence;
      hit_count = 0;
      source_runs = source_runs;
      status = codes "proposed";
      proposed_at = now;
      decided_at = none;
    }
    ∷ []
insert_learned_rule (row ∷ rows) id yaml confidence source_runs now =
    if text_eq row.rule_id id
    then row ∷ rows
    else row ∷ insert_learned_rule rows id yaml confidence source_runs now

unfoldable pub update_learned_rule_status : List RuleRow → Text → Text → ℕ → List RuleRow
update_learned_rule_status [] id status now = []
update_learned_rule_status (row ∷ rows) id status now =
    (if text_eq row.rule_id id then record row { status = status; decided_at = some now } else row)
    ∷ update_learned_rule_status rows id status now

pub record SkillRow : Type 0 where
  pub skill_id : Text
  pub name : Text
  pub description : Text
  pub actions_json : Text
  pub source_run_id : Option Text
  pub created_at : ℕ
  pub status : Text

abbrev pub find_skill : Text → List SkillRow → Option SkillRow
find_skill id [] = none
find_skill id (row ∷ rows) = if text_eq row.skill_id id then some row else find_skill id rows

-- `INSERT OR REPLACE`: an old row with this key is deleted, and the new one is a draft.
unfoldable pub delete_skill : Text → List SkillRow → List SkillRow
delete_skill id [] = []
delete_skill id (row ∷ rows) =
    if text_eq row.skill_id id then delete_skill id rows else row ∷ delete_skill id rows

unfoldable pub insert_skill :
    List SkillRow → Text → Text → Text → Text → Option Text → ℕ → List SkillRow
insert_skill rows id name description actions_json source now =
    delete_skill id rows
    ++ record {
      skill_id = id;
      name = name;
      description = description;
      actions_json = actions_json;
      source_run_id = source;
      created_at = now;
      status = codes "draft";
    }
      ∷ []

unfoldable pub update_skill_status : List SkillRow → Text → Text → List SkillRow
update_skill_status [] id status = []
update_skill_status (row ∷ rows) id status =
    (if text_eq row.skill_id id then record row { status = status } else row)
    ∷ update_skill_status rows id status
