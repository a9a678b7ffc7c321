-- ===== src/Daemon/Learned/Counts.antt =====
-- What the tables of `src/agent/daemon/store.py` on learning keep over time.
use hyprland_agent.Prelude.{
  ℕ, ◌+◌, Text, text_eq, text_eq_refl, ◌≡◌, ap, Bool, true, ◌&&◌, Option, none, some, List, [], ◌∷◌,
  count_if, if◌then◌else◌, Bool-cases, inl, inr, arith, text_eq_iff,
}
use hyprland_agent.Schemas.{Number}
use hyprland_agent.Daemon.Learned.{
  ProposalRow, Proposals, pending, is_proposal, upsert_rows, upsert_allowlist_proposal, RuleRow,
  find_rule, insert_learned_rule, update_learned_rule_status,
}

-- The count of the proposal for a class and a title, 0 without one.
abbrev pub hits_of : Text → Text → List ProposalRow → ℕ
hits_of c t [] = 0
hits_of c t (row ∷ rows) = if is_proposal c t row then row.hit_count else hits_of c t rows

abbrev pub AllPending : List ProposalRow → Type 0
AllPending [] = Unit
AllPending (row ∷ rows) = (text_eq row.status pending ≡ true) × AllPending rows

-- A miss that is proposed at some time.
pub record Miss : Type 0 where
  pub app_class : Text
  pub title : Text
  pub seen_at : ℕ

abbrev pub is_miss : Text → Text → Miss → Bool
is_miss c t m = text_eq m.app_class c && text_eq m.title t

abbrev pub upsert_all : Proposals → List Miss → Proposals
upsert_all p [] = p
upsert_all p (m ∷ ms) = upsert_all (upsert_allowlist_proposal p m.app_class m.title m.seen_at) ms

upsert_rows-AllPending :
    (id : ℕ) (c t : Text) (now : ℕ) (rows : List ProposalRow)
    → AllPending rows
    → AllPending (upsert_rows id c t now rows)
unfolding upsert_rows
upsert_rows-AllPending id c t now [] a = (text_eq_refl pending, tt)
upsert_rows-AllPending id c t now (row ∷ rows) a = elim (Bool-cases (is_proposal c t row)) [
  | inl same ↦ rw (same, a.0) (ground arith, a.1)
  | inr other ↦ rw other (a.0, upsert_rows-AllPending id c t now rows a.1)
]

hits_of-upsert_rows :
    (id : ℕ) (c t d u : Text) (now : ℕ) (rows : List ProposalRow)
    → AllPending rows
    → hits_of c t (upsert_rows id d u now rows)
      ≡ hits_of c t rows + (if text_eq d c && text_eq u t then 1 else 0)
unfolding upsert_rows
hits_of-upsert_rows id c t d u now [] a = ground arith
hits_of-upsert_rows id c t d u now (row ∷ rows) a = ground (
  arith,
  a.0,
  hits_of-upsert_rows id c t d u now rows a.1,
  text_eq_iff row.app_class c,
  text_eq_iff row.app_class d,
  text_eq_iff row.title_pat t,
  text_eq_iff row.title_pat u,
  text_eq_iff d c,
  text_eq_iff u t,
)

-- While no proposal is decided, its count grows with each miss of its class and title, and with
-- no other: after a series of misses it is higher by their number.
pub hits_of-upsert_all :
    (p : Proposals) (c t : Text) (ms : List Miss)
    → AllPending p.rows
    → hits_of c t (upsert_all p ms).rows ≡ hits_of c t p.rows + count_if (is_miss c t) ms
unfolding upsert_allowlist_proposal
hits_of-upsert_all p c t [] a = omega arith
hits_of-upsert_all p c t (m ∷ ms) a = ground (
  arith,
  hits_of-upsert_rows p.next_id c t m.app_class m.title m.seen_at p.rows a,
  hits_of-upsert_all (upsert_allowlist_proposal p m.app_class m.title m.seen_at) c t ms
      (upsert_rows-AllPending p.next_id m.app_class m.title m.seen_at p.rows a),
)

find-insert_learned_rule :
    (rows : List RuleRow) (id yaml : Text) (confidence : Number) (runs : Text) (now : ℕ)
    (row : RuleRow)
    → find_rule id rows ≡ some row
    → find_rule id (insert_learned_rule rows id yaml confidence runs now) ≡ some row
unfolding insert_learned_rule
find-insert_learned_rule [] id yaml confidence runs now row h = cc
find-insert_learned_rule (r ∷ rows) id yaml confidence runs now row h =
    ground (arith, find-insert_learned_rule rows id yaml confidence runs now row)

-- The decision, written into a row that was found.
abbrev decide_row : Text → ℕ → Option RuleRow → Option RuleRow
decide_row status now none = none
decide_row status now (some row) = some (record row { status = status; decided_at = some now })

pub find-update_learned_rule_status :
    (rows : List RuleRow) (id status : Text) (now : ℕ) (row : RuleRow)
    → find_rule id rows ≡ some row
    → find_rule id (update_learned_rule_status rows id status now)
      ≡ some (record row { status = status; decided_at = some now })
unfolding update_learned_rule_status
find-update_learned_rule_status [] id status now row h = cc
find-update_learned_rule_status (r ∷ rows) id status now row h =
    elim (Bool-cases (text_eq r.rule_id id)) [
      | inl same ↦ rw same (rw same (ap (decide_row status now) (rw same at h)))
      | inr other ↦
          rw other
            (rw other (find-update_learned_rule_status rows id status now row (rw other at h)))
    ]

-- A rule that was decided keeps its decision and its text when the miner proposes it again.
pub decision-insert_learned_rule :
    (rows : List RuleRow) (id status : Text) (decided : ℕ) (row : RuleRow)
    → find_rule id rows ≡ some row
    → (yaml : Text) (confidence : Number) (runs : Text) (now : ℕ)
    → find_rule id (
        insert_learned_rule
          (update_learned_rule_status rows id status decided)
          id
          yaml
          confidence
          runs
          now)
      ≡ some (record row { status = status; decided_at = some decided })
decision-insert_learned_rule rows id status decided row h yaml confidence runs now =
    find-insert_learned_rule (update_learned_rule_status rows id status decided) id yaml confidence
      runs now _ (find-update_learned_rule_status rows id status decided row h)
