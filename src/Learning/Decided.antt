-- ===== src/Learning/Decided.antt =====
-- What the decisions of `src/agent/learning/api.py` come to when they are made again.
use hyprland_agent.Prelude.{
  ℕ, ◌≡◌, refl, ap, ap₂, ◌∙◌, Text, codes, text_eq, text_eq_refl, true, Option, none, some, List,
  [], ◌∷◌, ◌++◌, append_assoc, ◌==◌, if◌then◌else◌, Bool-cases, Option-cases, inl, inr, arith,
}
use hyprland_agent.Daemon.Learned.{
  ProposalRow, set_proposal_status, RuleRow, find_rule, SkillRow, update_skill_status,
}
use hyprland_agent.Daemon.Learned.Counts.{find-update_learned_rule_status}
use hyprland_agent.Learning.Api.{
  Learned, Answer, Language, approved, has_entry, append_allowlist_entry, find_proposal,
  approve_rule, approve_allowlist, decide_proposal, approve,
}

update_skill_status-again :
    (rows : List SkillRow) (id status : Text)
    → update_skill_status (update_skill_status rows id status) id status
      ≡ update_skill_status rows id status
unfolding update_skill_status
update_skill_status-again [] id status = refl
update_skill_status-again (row ∷ rows) id status = elim (Bool-cases (text_eq row.skill_id id)) [
  | inl e ↦
      rw e (
        rw e (ap (◌∷◌ (record row { status = status })) (update_skill_status-again rows id status)))
  | inr e ↦ rw e (rw e (ap (◌∷◌ row) (update_skill_status-again rows id status)))
]

set_proposal_status-again :
    (rows : List ProposalRow) (id : ℕ) (status : Text)
    → set_proposal_status id status (set_proposal_status id status rows)
      ≡ set_proposal_status id status rows
unfolding set_proposal_status
set_proposal_status-again [] id status = refl
set_proposal_status-again (row ∷ rows) id status = elim (Bool-cases (row.proposal_id == id)) [
  | inl e ↦
      rw e (
        rw e (ap (◌∷◌ (record row { status = status })) (set_proposal_status-again rows id status)))
  | inr e ↦ rw e (rw e (ap (◌∷◌ row) (set_proposal_status-again rows id status)))
]

has_entry-append :
    (c t : Text) (allow : List (Text × Text)) → has_entry (c, t) (allow ++ (c, t) ∷ []) ≡ true
has_entry-append c t [] = ground (arith, text_eq_refl c, text_eq_refl t)
has_entry-append c t ((d, u) ∷ allow) = ground (arith, has_entry-append c t allow)

append_allowlist_entry-again :
    (c t : Text) (allow : List (Text × Text))
    → append_allowlist_entry c t (append_allowlist_entry c t allow)
      ≡ append_allowlist_entry c t allow
unfolding append_allowlist_entry
append_allowlist_entry-again c t allow = elim (Bool-cases (has_entry (c, t) allow)) [
  | inl e ↦ rw e (rw e refl)
  | inr e ↦ rw e (rw (has_entry-append c t allow) refl)
]

module _ {Rule : Type 0} (lang : Language Rule) where
  -- The row that was found, after a decision on the row `n`.
  abbrev decided : Text → ℕ → ProposalRow → ProposalRow
  decided status n row = if row.proposal_id == n then record row { status = status } else row

  abbrev decided_some : Text → ℕ → Option ProposalRow → Option ProposalRow
  decided_some status n none = none
  decided_some status n (some row) = some (decided status n row)

  find_proposal-set :
      (id status : Text) (n : ℕ) (rows : List ProposalRow)
      → find_proposal lang id (set_proposal_status n status rows)
        ≡ decided_some status n (find_proposal lang id rows)
  unfolding set_proposal_status
  find_proposal-set id status n [] = refl
  find_proposal-set id status n (r ∷ rows) = elim (Bool-cases (r.proposal_id == n)) [
    | inl e ↦ elim (Bool-cases (text_eq (lang.str r.proposal_id) id)) [
      | inl f ↦ rw e (rw f (rw e refl))
      | inr f ↦ rw e (rw f (find_proposal-set id status n rows))
    ]
    | inr e ↦ elim (Bool-cases (text_eq (lang.str r.proposal_id) id)) [
      | inl f ↦ rw e (rw f (rw e refl))
      | inr f ↦ rw e (rw f (find_proposal-set id status n rows))
    ]
  ]

  decided_entry :
      (row : ProposalRow) (n : ℕ) (status : Text) (allow : List (Text × Text))
      → append_allowlist_entry
          (decided status n row).app_class
          (decided status n row).title_pat
          allow
        ≡ append_allowlist_entry row.app_class row.title_pat allow
  decided_entry row n status allow = elim (Bool-cases (row.proposal_id == n)) [
    | inl e ↦ rw e refl
    | inr e ↦ rw e refl
  ]

  -- The second approval of a row that was found, with the number of its id.
  proposal-again :
      (id : Text) (s : Learned Rule) (row : ProposalRow) (n : ℕ)
      → find_proposal lang id s.proposals.rows ≡ some row
      → lang.int id ≡ some n
      → let first = (approve_allowlist lang id s (some row)).0 in
        approve_allowlist lang id first (find_proposal lang id first.proposals.rows)
        ≡ approve_allowlist lang id s (some row)
  unfolding approve_allowlist decide_proposal
  proposal-again id s row n found number =
      let allow = append_allowlist_entry row.app_class row.title_pat s.allow_file in
      let found_again : find_proposal lang id (set_proposal_status n approved s.proposals.rows)
          ≡ some (decided approved n row) =
        find_proposal-set id approved n s.proposals.rows ∙ ap (decided_some approved n) found in
      let entry : append_allowlist_entry (decided approved n row).app_class
            (decided approved n row).title_pat allow
          ≡ allow =
        decided_entry row n approved allow
        ∙ append_allowlist_entry-again row.app_class row.title_pat s.allow_file in
      let rows = set_proposal_status-again s.proposals.rows n approved in
      rw number (
        rw found_again (
          rw number (
            ap₂ {A = List ProposalRow} {B = List (Text × Text)} {C = Learned Rule × Answer}
              (λ rs entries. (
                record s {
                  proposals = record { rows = rs; next_id = s.proposals.next_id };
                  allow_file = entries;
                },
                Answer.done (codes "allowlist") id approved,
              ))
              rows entry)))

  -- The same where `int` refuses the id, after the file is written.
  refused-again :
      (id : Text) (s : Learned Rule) (row : ProposalRow)
      → find_proposal lang id s.proposals.rows ≡ some row
      → lang.int id ≡ none
      → let first = (approve_allowlist lang id s (some row)).0 in
        approve_allowlist lang id first (find_proposal lang id first.proposals.rows)
        ≡ approve_allowlist lang id s (some row)
  unfolding approve_allowlist decide_proposal
  refused-again id s row found number =
      let again = append_allowlist_entry-again row.app_class row.title_pat s.allow_file in
      rw number (
        rw found (
          rw number
            (ap (λ entries. (record s { allow_file = entries }, Answer.value_error)) again)))

  found-again :
      (id : Text) (s : Learned Rule) (row : ProposalRow)
      → find_proposal lang id s.proposals.rows ≡ some row
      → let first = (approve_allowlist lang id s (some row)).0 in
        approve_allowlist lang id first (find_proposal lang id first.proposals.rows)
        ≡ approve_allowlist lang id s (some row)
  found-again id s row found = elim (Option-cases (lang.int id)) [
    | inl number ↦ refused-again id s row found number
    | inr (n, number) ↦ proposal-again id s row n found number
  ]

  allowlist-again :
      (id : Text) (s : Learned Rule)
      → let first = (approve_allowlist lang id s (find_proposal lang id s.proposals.rows)).0 in
        approve_allowlist lang id first (find_proposal lang id first.proposals.rows)
        ≡ approve_allowlist lang id s (find_proposal lang id s.proposals.rows)
  unfolding approve_allowlist
  allowlist-again id s = elim (Option-cases (find_proposal lang id s.proposals.rows)) [
    | inl e ↦ rw e (rw e refl)
    | inr (row, e) ↦ rw e (found-again id s row e)
  ]

  rule-again :
      (id : Text) (now later : ℕ) (s : Learned Rule) (row : RuleRow)
      → find_rule id s.rules ≡ some row
      → let first = (approve_rule lang id now s (some row)).0 in
        (approve_rule lang id later first (find_rule id first.rules)).0.rules_file
        ≡ s.rules_file ++ (lang.rules_of row.yaml ++ lang.rules_of row.yaml)
  unfolding approve_rule
  rule-again id now later s row found =
      rw (find-update_learned_rule_status s.rules id approved now row found)
        (append_assoc s.rules_file (lang.rules_of row.yaml) (lang.rules_of row.yaml))

  -- For an id, and the row of a learned rule with that id: the second approval of a skill or of an
  -- allowlist proposal answers as the first and changes nothing more, and the second approval of the
  -- rule writes its rules into the file once more.
  pub approve-again :
      (id : Text) (now later : ℕ) (s : Learned Rule) (row : RuleRow)
      → find_rule id s.rules ≡ some row
      → let skill = codes "skill" in
        let allowlist = codes "allowlist" in
        let rule = codes "rule" in
        (approve lang skill id later (approve lang skill id now s).0 ≡ approve lang skill id now s)
        × (approve lang allowlist id later (approve lang allowlist id now s).0
            ≡ approve lang allowlist id now s)
        × ((approve lang rule id later (approve lang rule id now s).0).0.rules_file
            ≡ s.rules_file ++ (lang.rules_of row.yaml ++ lang.rules_of row.yaml))
  unfolding approve
  approve-again id now later s row found = (
    ap (λ rows. (record s { skills = rows }, Answer.done (codes "skill") id approved))
        (update_skill_status-again s.skills id approved),
    allowlist-again id s,
    rw found (rule-again id now later s row found),
  )
