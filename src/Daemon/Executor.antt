-- ===== src/Daemon/Executor.antt =====
-- The life of a run in `src/agent/daemon/run_executor.py`, with `derive_from_status` of
-- `src/agent/learning/outcome.py`. The brain and the orchestrator are given by how they end.
pub mod Settles
pub mod Stranded
mod Tests
use hyprland_agent.Prelude.{
  ℕ, ◌+◌, ◌-◌, Text, codes, text_key, text_eq, Bool, true, false, Option, none, some, List, [], ◌∷◌,
  ◌++◌, Dict, lookup, insert, erase, contains, ltb, if◌then◌else◌,
}
use hyprland_agent.Schemas.{RunKind, RunStatus, RunSummary, RunEventRecord, Params, Number}
use hyprland_agent.Daemon.Store.Writes.{
  RunStore, insert_run, update_run_status, append_event, update_run_metrics, upsert_run_outcome,
}

-- The store, the next number of each run, and the tasks at work.
pub record Executor : Type 0 where
  pub store : RunStore
  pub seq : Dict Text ℕ
  pub tasks : List Text

-- A message on the topic of runs; a payload holds texts.
pub record Published : Type 0 where
  pub run_id : Text
  pub kind : Text
  pub payload : Dict Text Text

-- How `orchestrate` ends under its time limit.
pub data Ending : Type 0 where
  finished stuck timed_out cancelled : Ending
  crashed : Text → Ending

abbrev pub kind_text : RunKind → Text
kind_text RunKind.run = codes "run"
kind_text RunKind.plan = codes "plan"

abbrev pub capitalized : RunKind → Text
capitalized RunKind.run = codes "Run"
capitalized RunKind.plan = codes "Plan"

abbrev pub final_status : Ending → RunStatus
final_status Ending.finished = RunStatus.completed
final_status Ending.stuck = RunStatus.aborted
final_status Ending.timed_out = RunStatus.errored
final_status Ending.cancelled = RunStatus.aborted
final_status (Ending.crashed why) = RunStatus.errored

-- The error text; `seconds` is the time limit as it is printed.
abbrev pub error_of : RunKind → Text → Ending → Option Text
error_of kind seconds Ending.timed_out =
    some (((capitalized kind ++ codes " timed out after ") ++ seconds) ++ codes "s")
error_of kind seconds (Ending.crashed why) = some why
error_of kind seconds _ = none

abbrev pub status_text : RunStatus → Text
status_text RunStatus.running = codes "running"
status_text RunStatus.completed = codes "completed"
status_text RunStatus.errored = codes "errored"
status_text RunStatus.aborted = codes "aborted"

-- The payload of the message on the end.
abbrev pub end_payload : RunKind → Text → Ending → Dict Text Text
end_payload kind seconds Ending.stuck = (codes "reason", codes "stuck") ∷ []
end_payload kind seconds ending = elim (error_of kind seconds ending) [
  | none ↦ []
  | some why ↦ (codes "error", why) ∷ []
]

-- A score is in tenths.
abbrev pub derive_from_status : RunStatus → Text × Number
derive_from_status RunStatus.completed = (codes "success", Number.nonneg 8)
derive_from_status RunStatus.errored = (codes "failure", Number.neg 7)
derive_from_status RunStatus.aborted = (codes "partial", Number.neg 2)
derive_from_status RunStatus.running = (codes "unknown", Number.nonneg 0)

-- The readings of the clock from the start of the task to the last write.
pub record Clock : Type 0 where
  pub started : ℕ
  pub ended : ℕ
  pub measured : ℕ
  pub decided : ℕ

-- `time.time() - t_start`: the wall clock may have been set back.
abbrev pub elapsed : ℕ → ℕ → Number
elapsed started now =
    if ltb now started then Number.neg (started - now - 1) else Number.nonneg (now - started)

-- `_run_task` from the end of `orchestrate` on: the new state and the messages in their order.
unfoldable pub run_task :
    Executor → Text → RunKind → Text → Text → Ending → Clock → Executor × List Published
run_task e run_id kind task seconds ending clock =
    let status = final_status ending in
    let (outcome, score) = derive_from_status status in
    let closed =
      update_run_status e.store run_id status none (error_of kind seconds ending) clock.ended in
    let measured =
      update_run_metrics closed run_id none none (some (elapsed clock.started clock.measured)) in
    let decided =
      upsert_run_outcome measured run_id outcome score (codes "derived") none clock.decided in
    (
      record { store = decided; seq = erase run_id e.seq; tasks = e.tasks },
      record {
        run_id = run_id;
        kind = (kind_text kind ++ codes "_") ++ status_text status;
        payload = end_payload kind seconds ending;
      }
          ∷ record {
            run_id = run_id;
            kind = codes "run_finished";
            payload =
                (codes "task", task)
                ∷ (codes "outcome", outcome)
                ∷ (codes "status", status_text status)
                ∷ [];
          }
          ∷ [],
    )

abbrev pub number_or : Option ℕ → ℕ
number_or none = 0
number_or (some n) = n

-- `self._seq.get(run_id, 0)`
abbrev pub next_seq : Executor → Text → ℕ
next_seq e run_id = number_or (lookup run_id e.seq)

abbrev pub store_or : RunStore → Option RunStore → RunStore
store_or old none = old
store_or old (some new) = new

-- `ctx.emit`: the number, the stored event; the message has the same content. `none` is an
-- integrity error of the store, after the number was taken.
unfoldable pub emit_event : Executor → Text → Text → Params → ℕ → Option RunStore × Executor
emit_event e run_id kind payload now =
    let seq = next_seq e run_id in
    let stored =
      append_event e.store run_id
        (record { seq = seq; ts = now; kind = kind; payload = payload }) in
    (stored, record e { seq = insert run_id (seq + 1) e.seq; store = store_or e.store stored })

abbrev pub new_summary : Text → RunKind → Text → Text → ℕ → RunSummary
new_summary run_id kind task brain now = record {
  run_id = run_id;
  kind = kind;
  task = task;
  brain = brain;
  status = RunStatus.running;
  started_at = now;
  ended_at = none;
  error = none;
}

-- How `_submit` ends.
pub data Submitted : Type 0 where
  started duplicate unknown_brain : Submitted

-- `_submit` behind the insertion; `none` is an integrity error.
unfoldable pub after_insert :
    (Text → Bool) → Executor → Text → Text → Option RunStore → Submitted × Executor
after_insert is_brain e run_id brain none = (Submitted.duplicate, e)
after_insert is_brain e run_id brain (some store) =
    let numbered : Executor = record e { store = store; seq = insert run_id 0 e.seq } in
    if is_brain brain
    then (Submitted.started, record numbered { tasks = e.tasks ++ run_id ∷ [] })
    else (Submitted.unknown_brain, numbered)

-- `_submit`: the row is written before `get_brain` may raise.
unfoldable pub submit :
    (Text → Bool) → Executor → Text → RunKind → Text → Text → ℕ → Submitted × Executor
submit is_brain e run_id kind task brain now =
    after_insert is_brain e run_id brain
      (insert_run e.store (new_summary run_id kind task brain now))
