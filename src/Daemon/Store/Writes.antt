-- ===== src/Daemon/Store/Writes.antt =====
-- The tables of the store and its write operations.
use hyprland_agent.Prelude.{
  ℕ, Text, text_eq, text_key, ◌+◌, Bool, true, false, ◌&&◌, not, Option, none, some, is_some, List,
  [], ◌∷◌, ◌++◌, Dict, insert, erase, ◌==◌, if◌then◌else◌,
}
use hyprland_agent.Schemas.{RunStatus, RunSummary, RunRecord, RunEventRecord, Number}

-- A row of `runs`, with the columns of the second migration.
pub record RunRow : Type 0 where
  pub summary : RunSummary
  pub iterations : Option ℕ
  pub action_count : Option ℕ
  pub duration_s : Option Number

-- A row of `run_events`.
abbrev pub EventRow : Type 0
EventRow = Text × RunEventRecord

-- A row of `run_outcomes`; a score is in tenths.
pub record OutcomeRow : Type 0 where
  pub outcome : Text
  pub score : Number
  pub source : Text
  pub rationale : Option Text
  pub decided_at : ℕ

pub record FeedbackRow : Type 0 where
  pub feedback_id : ℕ
  pub run_id : Text
  pub kind : Text
  pub comment : Option Text
  pub created_at : ℕ

pub record Tables : Type 0 where
  pub runs : List RunRow
  pub events : List EventRow
  pub outcomes : Dict Text OutcomeRow
  pub feedback : List FeedbackRow
  pub last_feedback_id : ℕ

pub record RunStore : Type 0 where
  pub tables : Tables
  pub lru : Dict Text RunRecord

abbrev pub lru_capacity : ℕ
lru_capacity = 16

abbrev pub row_id : RunRow → Text
row_id row = row.summary.run_id

-- `SELECT … FROM runs WHERE run_id=?`, `fetchone`
unfoldable pub find_run : Text → List RunRow → Option RunRow
find_run run_id [] = none
find_run run_id (row ∷ rows) =
    if text_eq (row_id row) run_id then some row else find_run run_id rows

-- `UPDATE runs SET … WHERE run_id=?`
unfoldable pub update_rows : (RunRow → RunRow) → Text → List RunRow → List RunRow
update_rows f run_id [] = []
update_rows f run_id (row ∷ rows) =
    (if text_eq (row_id row) run_id then f row else row) ∷ update_rows f run_id rows

-- A new row has no error text and no metrics: the statement does not name those columns.
abbrev pub new_row : RunSummary → RunRow
new_row run = record {
  summary = record run { error = none };
  iterations = none;
  action_count = none;
  duration_s = none;
}

-- `none` is an `IntegrityError`.
unfoldable pub insert_run : RunStore → RunSummary → Option RunStore
insert_run s run =
    if is_some (find_run run.run_id s.tables.runs)
    then none
    else some (record s { tables = record s.tables { runs = s.tables.runs ++ new_row run ∷ [] } })

abbrev pub set_status : RunStatus → ℕ → Option Text → RunRow → RunRow
set_status status ended_at error row = record row {
  summary = record row.summary { status = status; ended_at = some ended_at; error = error };
}

-- `ended_at if ended_at is not None else time.time()`
abbrev pub value_or : Option ℕ → ℕ → ℕ
value_or none now = now
value_or (some t) now = t

unfoldable pub update_run_status :
    RunStore → Text → RunStatus → Option ℕ → Option Text → ℕ → RunStore
update_run_status s run_id status ended_at error now =
    let ended = value_or ended_at now in
    record {
      tables = record s.tables {
        runs = update_rows (set_status status ended error) run_id s.tables.runs;
      };
      lru = erase run_id s.lru;
    }

abbrev pub has_event : Text → ℕ → List EventRow → Bool
has_event run_id seq [] = false
has_event run_id seq ((j, event) ∷ rows) =
    if text_eq j run_id && (event.seq == seq) then true else has_event run_id seq rows

unfoldable pub append_event : RunStore → Text → RunEventRecord → Option RunStore
append_event s run_id event =
    if has_event run_id event.seq s.tables.events
    then none
    else some (record {
      tables = record s.tables { events = s.tables.events ++ (run_id, event) ∷ [] };
      lru = erase run_id s.lru;
    })

abbrev pub set_metric : {A : Type 0} → Option A → Option A → Option A
set_metric none old = old
set_metric (some new) old = some new

abbrev pub set_metrics : Option ℕ → Option ℕ → Option Number → RunRow → RunRow
set_metrics iterations action_count duration_s row = record row {
  iterations = set_metric iterations row.iterations;
  action_count = set_metric action_count row.action_count;
  duration_s = set_metric duration_s row.duration_s;
}

unfoldable pub update_run_metrics : RunStore → Text → Option ℕ → Option ℕ → Option Number → RunStore
update_run_metrics s run_id iterations action_count duration_s =
    if not (is_some iterations) && (not (is_some action_count) && not (is_some duration_s))
    then s
    else record {
      tables = record s.tables {
        runs = update_rows (set_metrics iterations action_count duration_s) run_id s.tables.runs;
      };
      lru = erase run_id s.lru;
    }

unfoldable pub upsert_run_outcome :
    RunStore → Text → Text → Number → Text → Option Text → ℕ → RunStore
upsert_run_outcome s run_id outcome score source rationale now = record s {
  tables = record s.tables {
    outcomes =
        insert run_id
          (record {
            outcome = outcome;
            score = score;
            source = source;
            rationale = rationale;
            decided_at = now;
          })
          s.tables.outcomes;
  };
}

-- The new feedback id and the store.
unfoldable pub insert_feedback : RunStore → Text → Text → Option Text → ℕ → ℕ × RunStore
insert_feedback s run_id kind comment now =
    let feedback_id = s.tables.last_feedback_id + 1 in
    let row : FeedbackRow = record {
      feedback_id = feedback_id;
      run_id = run_id;
      kind = kind;
      comment = comment;
      created_at = now;
    } in
    (
      feedback_id,
      record s {
        tables = record s.tables {
          feedback = s.tables.feedback ++ row ∷ [];
          last_feedback_id = feedback_id;
        };
      },
    )
