-- ===== src/Daemon/Executor/Tests.antt =====
-- Runs of the definitions for the executor.
use hyprland_agent.Prelude.{
  ◌+◌, codes, text_key, ◌≡◌, refl, false, none, some, List, [], ◌∷◌, ◌++◌, lookup,
}
use hyprland_agent.Schemas.{RunKind, Number}
use hyprland_agent.Daemon.Store.Writes.{RunRow, OutcomeRow, find_run, new_row}
use hyprland_agent.Daemon.Executor.{
  Executor, Ending, Clock, elapsed, run_task, next_seq, emit_event, new_summary, Submitted, submit,
}
use hyprland_agent.Daemon.Executor.Settles.{
  IsSettled, IsElapsed, Keeps, run_task-find_run, IsBelow, emit_event-IsBelow,
}
use hyprland_agent.Daemon.Executor.Stranded.{Call, calls, IsStranded, submit-IsStranded}

abbrev row : RunRow
row = new_row (new_summary (codes "r1") RunKind.run (codes "t") (codes "claude") 3)

abbrev executor : List RunRow → Executor
executor rows = record {
  store = record {
    tables = record {
      runs = rows;
      events = [];
      outcomes = [];
      feedback = [];
      last_feedback_id = 0;
    };
    lru = [];
  };
  seq = [];
  tasks = [];
}

abbrev clock : Clock
clock = record { started = 3; ended = 8; measured = 9; decided = 10 }

row_stored : find_run (codes "r1") (row ∷ []) ≡ some row
unfolding find_run
row_stored = refl

row_missing : find_run (codes "r1") [] ≡ none
unfolding find_run
row_missing = refl

run_task-find_run_example :
    let t =
      (run_task
        (executor (row ∷ []))
        (codes "r1")
        RunKind.run
        (codes "t")
        (codes "300")
        Ending.stuck
        clock).0.store.tables in
    (settled : RunRow) × (outcome : OutcomeRow) × (duration : Number) × (find_run
        (codes "r1")
        t.runs
      ≡ some settled)
    × (lookup (codes "r1") t.outcomes ≡ some outcome)
    × IsSettled RunKind.run
        (codes "300")
        Ending.stuck
        settled.summary.status
        settled.summary.error
        outcome.outcome
        outcome.score
    × (settled.summary.ended_at ≡ some 8)
    × (settled.duration_s ≡ some duration)
    × IsElapsed 3 9 duration
    × Keeps row settled
    × (outcome.source ≡ codes "derived")
    × (outcome.rationale ≡ none)
    × (outcome.decided_at ≡ 10)
run_task-find_run_example =
    run_task-find_run (executor (row ∷ [])) (codes "r1") RunKind.run (codes "t") (codes "300")
      Ending.stuck clock row row_stored

set_back : elapsed 9 3 ≡ Number.neg 5
set_back = refl

emit_event-IsBelow_example :
    let (stored, e') = emit_event (executor []) (codes "r1") (codes "start") [] 4 in
    (stored ≡ some e'.store)
    × (e'.store.tables.events
        ≡ [] ++ (codes "r1", record { seq = 0; ts = 4; kind = codes "start"; payload = [] }) ∷ [])
    × (next_seq e' (codes "r1") ≡ 0 + 1)
    × IsBelow (codes "r1") (next_seq e' (codes "r1")) e'.store.tables.events
emit_event-IsBelow_example = emit_event-IsBelow (executor []) (codes "r1") (codes "start") [] 4 tt

abbrev later : List Call
later =
    Call.submitted (codes "r1") RunKind.run (codes "t") (codes "claude") 6
    ∷ Call.emitted (codes "r2") (codes "start") [] 7
    ∷ Call.ended (codes "r1") RunKind.run (codes "t") (codes "300") Ending.finished clock
    ∷ []

submit-IsStranded_example :
    let (answer, e') =
      submit
        (λ name. false)
        (executor [])
        (codes "r1")
        RunKind.run
        (codes "t")
        (codes "nobody")
        5 in
    (answer ≡ Submitted.unknown_brain) × IsStranded (codes "r1") (calls (λ name. false) e' later)
submit-IsStranded_example =
    submit-IsStranded (λ name. false) (executor []) (codes "r1") RunKind.run (codes "t")
      (codes "nobody") 5 later row_missing refl refl
