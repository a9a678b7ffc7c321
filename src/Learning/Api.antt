-- ===== src/Learning/Api.antt =====
-- The decisions on proposals, `src/agent/learning/api.py`, on the tables of `src/agent/daemon/store.py`
-- and the two files that they write.
use hyprland_agent.Prelude.{
  ℕ, Text, codes, text_eq, lower, Bool, true, false, ◌&&◌, Option, none, some, List, [], ◌∷◌, ◌++◌,
  take, ltb, if◌then◌else◌,
}
use hyprland_agent.Daemon.Learned.{
  ProposalRow, Proposals, update_allowlist_proposal_status, RuleRow, find_rule,
  update_learned_rule_status, SkillRow, find_skill, update_skill_status,
}

-- The tables; `rules` of learned_rules.yaml and `allow` of allowlist.yaml, empty without a file.
pub record Learned (Rule : Type 0) : Type 0 where
  pub proposals : Proposals
  pub rules : List RuleRow
  pub skills : List SkillRow
  pub rules_file : List Rule
  pub allow_file : List (Text × Text)

-- `{"ok": True, ...}` with the kind, the id and the status, or an exception.
pub data Answer : Type 0 where
  done : Text → Text → Text → Answer
  key_error value_error : Answer

-- `str` and `int` of the language, and the rules of a YAML text: `safe_load(t).get("rules", [])`.
pub record Language (Rule : Type 0) : Type 0 where
  pub str : ℕ → Text
  pub int : Text → Option ℕ
  pub rules_of : Text → List Rule

abbrev pub approved : Text
approved = codes "approved"

abbrev pub rejected : Text
rejected = codes "rejected"

abbrev pub has_entry : Text × Text → List (Text × Text) → Bool
has_entry e [] = false
has_entry (c, t) ((d, u) ∷ allow) =
    if text_eq d c && text_eq u t then true else has_entry (c, t) allow

-- `_append_allowlist_entry`
unfoldable pub append_allowlist_entry : Text → Text → List (Text × Text) → List (Text × Text)
append_allowlist_entry app_class title_pat allow =
    if has_entry (app_class, title_pat) allow then allow else allow ++ (app_class, title_pat) ∷ []

-- `ORDER BY key DESC`
abbrev insert_row : {A : Type 0} → (A → ℕ) → A → List A → List A
insert_row key a [] = a ∷ []
insert_row key a (b ∷ rows) =
    if ltb (key b) (key a) then a ∷ b ∷ rows else b ∷ insert_row key a rows

unfoldable pub order_by : {A : Type 0} → (A → ℕ) → List A → List A
order_by key [] = []
order_by key (a ∷ rows) = insert_row key a (order_by key rows)

-- `WHERE status=?`, where a status is given.
unfoldable pub with_status : {A : Type 0} → (A → Text) → Text → List A → List A
with_status status_of status [] = []
with_status status_of status (a ∷ rows) =
    let rest = with_status status_of status rows in
    if text_eq (status_of a) status then a ∷ rest else rest

-- `if status:`
abbrev where_status : {A : Type 0} → (A → Text) → Option Text → List A → List A
where_status status_of none rows = rows
where_status status_of (some []) rows = rows
where_status status_of (some (c ∷ cs)) rows = with_status status_of (c ∷ cs) rows

abbrev pub list_skills : Option Text → ℕ → List SkillRow → List SkillRow
list_skills status limit rows = take limit (
    order_by (λ (r : SkillRow). r.created_at)
      (where_status (λ (r : SkillRow). r.status) status rows))

abbrev pub list_learned_rules : Option Text → List RuleRow → List RuleRow
list_learned_rules status rows =
    order_by (λ (r : RuleRow). r.proposed_at) (where_status (λ (r : RuleRow). r.status) status rows)

-- Here an empty status is one too.
abbrev pub list_allowlist_proposals : Option Text → List ProposalRow → List ProposalRow
list_allowlist_proposals none rows = order_by (λ (r : ProposalRow). r.hit_count) rows
list_allowlist_proposals (some status) rows =
    order_by (λ (r : ProposalRow). r.hit_count)
      (with_status (λ (r : ProposalRow). r.status) status rows)

-- `status or default_status`
abbrev pub status_or : Text → Option Text → Option Text
status_or default none = some default
status_or default (some []) = some default
status_or default (some (c ∷ cs)) = some (c ∷ cs)

-- What is listed and explained: the rows, of which the replies take fields.
pub data Listed : Type 0 where
  skills : List SkillRow → Listed
  rules : List RuleRow → Listed
  proposals : List ProposalRow → Listed
  unknown_kind : Listed

pub data Explained : Type 0 where
  skill : SkillRow → Explained
  rule : RuleRow → Explained
  proposal : ProposalRow → Explained
  not_found unknown : Explained

abbrev pub explain_with : {A : Type 0} → (A → Explained) → Option A → Explained
explain_with f none = Explained.not_found
explain_with f (some a) = f a

module _ {Rule : Type 0} (lang : Language Rule) where
  -- `next((r for r in rows if str(r["proposal_id"]) == str(proposal_id)), None)`; an id is of one row.
  abbrev pub find_proposal : Text → List ProposalRow → Option ProposalRow
  find_proposal id [] = none
  find_proposal id (row ∷ rows) =
      if text_eq (lang.str row.proposal_id) id then some row else find_proposal id rows

  unfoldable pub list_proposals : Text → Option Text → Learned Rule → Listed
  list_proposals kind status s =
      if text_eq (lower kind) (codes "skill")
      then Listed.skills (list_skills (status_or (codes "draft") status) 50 s.skills)
      else if text_eq (lower kind) (codes "rule")
      then Listed.rules (list_learned_rules (status_or (codes "proposed") status) s.rules)
      else if text_eq (lower kind) (codes "allowlist")
      then Listed.proposals
          (list_allowlist_proposals (status_or (codes "pending") status) s.proposals.rows)
      else Listed.unknown_kind

  abbrev pub approve_skill : Text → Learned Rule → Learned Rule × Answer
  approve_skill id s = (
    record s { skills = update_skill_status s.skills id approved },
    Answer.done (codes "skill") id approved,
  )

  unfoldable pub approve_rule : Text → ℕ → Learned Rule → Option RuleRow → Learned Rule × Answer
  approve_rule id now s none = (s, Answer.key_error)
  approve_rule id now s (some row) = (
    record s {
      rules_file = s.rules_file ++ lang.rules_of row.yaml;
      rules = update_learned_rule_status s.rules id approved now;
    },
    Answer.done (codes "rule") id approved,
  )

  -- With `int(proposal_id)`, after the file is written.
  unfoldable pub decide_proposal : Text → Text → Learned Rule → Option ℕ → Learned Rule × Answer
  decide_proposal id status s none = (s, Answer.value_error)
  decide_proposal id status s (some n) = (
    record s { proposals = update_allowlist_proposal_status s.proposals n status },
    Answer.done (codes "allowlist") id status,
  )

  unfoldable pub approve_allowlist :
      Text → Learned Rule → Option ProposalRow → Learned Rule × Answer
  approve_allowlist id s none = (s, Answer.key_error)
  approve_allowlist id s (some row) =
      decide_proposal id approved
        (record s { allow_file = append_allowlist_entry row.app_class row.title_pat s.allow_file })
        (lang.int id)

  unfoldable pub approve : Text → Text → ℕ → Learned Rule → Learned Rule × Answer
  approve kind id now s =
      if text_eq (lower kind) (codes "skill")
      then approve_skill id s
      else if text_eq (lower kind) (codes "rule")
      then approve_rule id now s (find_rule id s.rules)
      else if text_eq (lower kind) (codes "allowlist")
      then approve_allowlist id s (find_proposal id s.proposals.rows)
      else (s, Answer.value_error)

  unfoldable pub reject : Text → Text → ℕ → Learned Rule → Learned Rule × Answer
  reject kind id now s =
      if text_eq (lower kind) (codes "skill")
      then (
        record s { skills = update_skill_status s.skills id rejected },
        Answer.done (lower kind) id rejected,
      )
      else if text_eq (lower kind) (codes "rule")
      then (
        record s { rules = update_learned_rule_status s.rules id rejected now },
        Answer.done (lower kind) id rejected,
      )
      else if text_eq (lower kind) (codes "allowlist")
      then decide_proposal id rejected s (lang.int id)
      else (s, Answer.value_error)

  -- A skill is looked for among the 50 newest; a rule and a proposal in the whole table.
  unfoldable pub explain : Text → Text → Learned Rule → Explained
  explain kind id s =
      if text_eq (lower kind) (codes "skill")
      then explain_with Explained.skill (find_skill id (list_skills none 50 s.skills))
      else if text_eq (lower kind) (codes "rule")
      then explain_with Explained.rule (find_rule id s.rules)
      else if text_eq (lower kind) (codes "allowlist")
      then explain_with Explained.proposal (find_proposal id s.proposals.rows)
      else Explained.unknown
