-- ===== src/Daemon/Executor/Stranded.antt =====
-- A run of `src/agent/daemon/run_executor.py` whose brain is not known: `_submit` stores it and
-- raises, and whatever the executor does later leaves it so.
use hyprland_agent.Prelude.{
  ℕ, Text, text_eq, text_eq_iff, ◌≡◌, refl, ◌∙◌, Bool, false, none, some, List, [], ◌∷◌, ◌++◌,
  Bool-cases, Option-cases, inl, inr, arith, if◌then◌else◌,
}
use hyprland_agent.Schemas.{RunSummary, RunKind, RunStatus, Params}
use hyprland_agent.Safety.Confirm.{member}
use hyprland_agent.Daemon.Store.Writes.{
  RunRow, RunStore, find_run, insert_run, append_event, new_row, update_rows, update_run_status,
  update_run_metrics, upsert_run_outcome, set_status, set_metrics,
}
use hyprland_agent.Daemon.Store.Rows.{find_run-update_rows_ne, find_run-append}
use hyprland_agent.Daemon.Executor.{
  Executor, Ending, Clock, elapsed, final_status, error_of, run_task, emit_event, new_summary,
  after_insert, Submitted, submit,
}

-- What the executor does: a submission, an event of a run at work, the end of a task at work, which
-- then leaves the tasks.
pub data Call : Type 0 where
  submitted : Text → RunKind → Text → Text → ℕ → Call
  emitted : Text → Text → Params → ℕ → Call
  ended : Text → RunKind → Text → Text → Ending → Clock → Call

unfoldable pub without : Text → List Text → List Text
without run_id [] = []
without run_id (j ∷ tasks) =
    let rest = without run_id tasks in if text_eq j run_id then rest else j ∷ rest

abbrev pub task_done : Executor → Text → Executor
task_done e run_id = record e { tasks = without run_id e.tasks }

unfoldable pub call : (Text → Bool) → Executor → Call → Executor
call is_brain e (Call.submitted run_id kind task brain now) =
    (submit is_brain e run_id kind task brain now).1
call is_brain e (Call.emitted run_id kind payload now) = (emit_event e run_id kind payload now).1
call is_brain e (Call.ended run_id kind task seconds ending clock) =
    if member run_id e.tasks
    then task_done (run_task e run_id kind task seconds ending clock).0 run_id
    else e

unfoldable pub calls : (Text → Bool) → Executor → List Call → Executor
calls is_brain e [] = e
calls is_brain e (c ∷ cs) = calls is_brain (call is_brain e c) cs

-- The run is listed as running, without an end, and no task works on it.
abbrev pub IsStranded : Text → Executor → Type 0
IsStranded run_id e =
    (row : RunRow) × (find_run run_id e.store.tables.runs ≡ some row)
    × (row.summary.status ≡ RunStatus.running)
    × (row.summary.ended_at ≡ none)
    × (member run_id e.tasks ≡ false)

find_run-append_self :
    (run_id : Text) (rows : List RunRow) (row : RunRow)
    → find_run run_id rows ≡ none
    → row.summary.run_id ≡ run_id
    → find_run run_id (rows ++ row ∷ []) ≡ some row
unfolding find_run
find_run-append_self run_id [] row absent own =
    ground (arith, text_eq_iff row.summary.run_id run_id)
find_run-append_self run_id (r ∷ rows) row absent own =
    ground (arith, find_run-append_self run_id rows row)

insert_run-absent :
    (s : RunStore) (run : RunSummary)
    → find_run run.run_id s.tables.runs ≡ none
    → insert_run s run
      ≡ some (record s { tables = record s.tables { runs = s.tables.runs ++ new_row run ∷ [] } })
unfolding insert_run
insert_run-absent s run absent = rw absent refl

member-append :
    (t s : Text) (tasks : List Text)
    → member t tasks ≡ false
    → text_eq s t ≡ false
    → member t (tasks ++ s ∷ []) ≡ false
member-append t s [] h ne = rw ne refl
member-append t s (j ∷ tasks) h ne = ground (arith, member-append t s tasks)

member-without :
    (t s : Text) (tasks : List Text) → member t tasks ≡ false → member t (without s tasks) ≡ false
unfolding without
member-without t s [] h = h
member-without t s (j ∷ tasks) h = ground (arith, member-without t s tasks)

-- A stored run keeps its id from being used again.
insert_run-present :
    (s : RunStore) (run : RunSummary) (row : RunRow)
    → find_run run.run_id s.tables.runs ≡ some row
    → insert_run s run ≡ none
unfolding insert_run
insert_run-present s run row h = rw h refl

submitted-IsStranded :
    (is_brain : Text → Bool) (e : Executor) (run_id j : Text) (kind : RunKind) (task brain : Text)
    (now : ℕ)
    → IsStranded run_id e
    → IsStranded run_id (submit is_brain e j kind task brain now).1
unfolding submit after_insert
submitted-IsStranded is_brain e run_id j kind task brain now (row, found, running, open_end, idle) =
    let run = new_summary j kind task brain now in
    elim (Option-cases (find_run j e.store.tables.runs)) [
      | inr (old, there) ↦
          rw (insert_run-present e.store run old there) (row, found, running, open_end, idle)
      | inl absent ↦
          let ne : text_eq j run_id ≡ false = ground (arith, text_eq_iff j run_id) in
          let kept = find_run-append run_id e.store.tables.runs row (new_row run) found in
          rw (insert_run-absent e.store run absent) (elim (Bool-cases (is_brain brain)) [
            | inl known ↦
                rw known (row, kept, running, open_end, member-append run_id j e.tasks idle ne)
            | inr unknown ↦ rw unknown (row, kept, running, open_end, idle)
          ])
    ]

emit-IsStranded :
    (e : Executor) (run_id j kind : Text) (payload : Params) (now : ℕ)
    → IsStranded run_id e
    → IsStranded run_id (emit_event e j kind payload now).1
unfolding emit_event append_event
emit-IsStranded e run_id j kind payload now (row, found, running, open_end, idle) =
    (row, ground arith, running, open_end, idle)

ended-IsStranded :
    (e : Executor) (run_id j : Text) (kind : RunKind) (task seconds : Text) (ending : Ending)
    (clock : Clock)
    → text_eq run_id j ≡ false
    → IsStranded run_id e
    → IsStranded run_id (task_done (run_task e j kind task seconds ending clock).0 j)
unfolding run_task update_run_status update_run_metrics upsert_run_outcome
ended-IsStranded e run_id j kind task seconds ending clock ne
      (row, found, running, open_end, idle) =
    let close = set_status (final_status ending) clock.ended (error_of kind seconds ending) in
    let measure = set_metrics none none (some (elapsed clock.started clock.measured)) in
    let runs = e.store.tables.runs in
    (
      row,
      find_run-update_rows_ne measure j run_id (update_rows close j runs) (λ r. refl) ne
          ∙ find_run-update_rows_ne close j run_id runs (λ r. refl) ne
          ∙ found,
      running,
      open_end,
      member-without run_id j e.tasks idle,
    )

call-IsStranded :
    (is_brain : Text → Bool) (e : Executor) (run_id : Text) (c : Call)
    → IsStranded run_id e
    → IsStranded run_id (call is_brain e c)
unfolding call
call-IsStranded is_brain e run_id (Call.submitted j kind task brain now) s =
    submitted-IsStranded is_brain e run_id j kind task brain now s
call-IsStranded is_brain e run_id (Call.emitted j kind payload now) s =
    emit-IsStranded e run_id j kind payload now s
call-IsStranded is_brain e run_id (Call.ended j kind task seconds ending clock) s =
    elim (Bool-cases (member j e.tasks)) [
      | inl at_work ↦
          let (row, found, running, open_end, idle) = s in
          let ne : text_eq run_id j ≡ false = ground (arith, text_eq_iff run_id j) in
          rw at_work (ended-IsStranded e run_id j kind task seconds ending clock ne s)
      | inr gone ↦ rw gone s
    ]

calls-IsStranded :
    (is_brain : Text → Bool) (e : Executor) (run_id : Text) (cs : List Call)
    → IsStranded run_id e
    → IsStranded run_id (calls is_brain e cs)
unfolding calls
calls-IsStranded is_brain e run_id [] s = s
calls-IsStranded is_brain e run_id (c ∷ cs) s =
    calls-IsStranded is_brain (call is_brain e c) run_id cs (call-IsStranded is_brain e run_id c s)

-- When a run with a new id asks for a brain that is unknown, it is stored as running with no end and
-- no task, and it stays so whatever the executor does later: submissions, also with the same id,
-- events, and the ends of the tasks at work.
pub submit-IsStranded :
    (is_brain : Text → Bool) (e : Executor) (run_id : Text) (kind : RunKind) (task brain : Text)
    (now : ℕ) (later : List Call)
    → find_run run_id e.store.tables.runs ≡ none
    → member run_id e.tasks ≡ false
    → is_brain brain ≡ false
    → let (answer, e') = submit is_brain e run_id kind task brain now in
      (answer ≡ Submitted.unknown_brain) × IsStranded run_id (calls is_brain e' later)
unfolding submit after_insert
submit-IsStranded is_brain e run_id kind task brain now later absent idle unknown =
    let run = new_summary run_id kind task brain now in
    rw (insert_run-absent e.store run absent, unknown)
      (
        refl,
        calls-IsStranded is_brain _ run_id later (
          new_row run,
          find_run-append_self run_id e.store.tables.runs (new_row run) absent refl,
          refl,
          refl,
          idle,
        ),
      )
