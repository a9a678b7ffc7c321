-- ===== src/Daemon/Executor/Settles.antt =====
-- How runs of `src/agent/daemon/run_executor.py` begin, go on and end.
use hyprland_agent.Prelude.{
  ℕ, ◌+◌, ◌<◌, Text, codes, text_key, text_eq, text_eq_refl, ◌≡◌, ◌⊎◌, refl, ap, ◌∙◌, false, Option,
  none, some, ltb, Bool-cases, List, [], ◌∷◌, ◌++◌, Dict, lookup, insert, erase, lookup-insert, inl,
  inr, arith, ==_iff, if◌then◌else◌,
}
use hyprland_agent.Schemas.{RunKind, RunStatus, RunEventRecord, Params, Number}
use hyprland_agent.Daemon.Store.Writes.{
  RunRow, RunStore, EventRow, OutcomeRow, find_run, update_run_status, append_event,
  update_run_metrics, upsert_run_outcome, set_status, set_metrics, has_event,
}
use hyprland_agent.Daemon.Store.Rows.{find_run-update_rows_self}
use hyprland_agent.Daemon.Executor.{
  Executor, Ending, Clock, final_status, error_of, derive_from_status, run_task, next_seq, elapsed,
  emit_event, number_or,
}

lookup_inserted :
    {V : Type 0} (k : Text) (v : V) (d : Dict Text V) → lookup k (insert k v d) ≡ some v
lookup_inserted k v d =
    lookup-insert k k v d ∙ ap (λ b. if b then some v else lookup k d) (text_eq_refl k)

-- The status, the error text, and the outcome with its score in tenths, for each way a run ends.
abbrev pub IsSettled : RunKind → Text → Ending → RunStatus → Option Text → Text → Number → Type 0
IsSettled kind seconds Ending.finished status error outcome score =
    (status ≡ RunStatus.completed)
    × (error ≡ none)
    × (outcome ≡ codes "success")
    × (score ≡ Number.nonneg 8)
IsSettled kind seconds Ending.stuck status error outcome score =
    (status ≡ RunStatus.aborted)
    × (error ≡ none)
    × (outcome ≡ codes "partial")
    × (score ≡ Number.neg 2)
IsSettled RunKind.run seconds Ending.timed_out status error outcome score =
    (status ≡ RunStatus.errored)
    × (error ≡ some ((codes "Run timed out after " ++ seconds) ++ codes "s"))
    × (outcome ≡ codes "failure")
    × (score ≡ Number.neg 7)
IsSettled RunKind.plan seconds Ending.timed_out status error outcome score =
    (status ≡ RunStatus.errored)
    × (error ≡ some ((codes "Plan timed out after " ++ seconds) ++ codes "s"))
    × (outcome ≡ codes "failure")
    × (score ≡ Number.neg 7)
IsSettled kind seconds Ending.cancelled status error outcome score =
    (status ≡ RunStatus.aborted)
    × (error ≡ none)
    × (outcome ≡ codes "partial")
    × (score ≡ Number.neg 2)
IsSettled kind seconds (Ending.crashed why) status error outcome score =
    (status ≡ RunStatus.errored)
    × (error ≡ some why)
    × (outcome ≡ codes "failure")
    × (score ≡ Number.neg 7)

IsSettled_lem :
    (kind : RunKind) (seconds : Text) (ending : Ending)
    → IsSettled kind seconds ending
        (final_status ending)
        (error_of kind seconds ending)
        (derive_from_status (final_status ending)).0
        (derive_from_status (final_status ending)).1
IsSettled_lem kind seconds Ending.finished = (refl, refl, refl, refl)
IsSettled_lem kind seconds Ending.stuck = (refl, refl, refl, refl)
IsSettled_lem RunKind.run seconds Ending.timed_out = (refl, refl, refl, refl)
IsSettled_lem RunKind.plan seconds Ending.timed_out = (refl, refl, refl, refl)
IsSettled_lem kind seconds Ending.cancelled = (refl, refl, refl, refl)
IsSettled_lem kind seconds (Ending.crashed why) = (refl, refl, refl, refl)

-- A signed number of nanoseconds from the start to the measurement.
abbrev pub IsElapsed : ℕ → ℕ → Number → Type 0
IsElapsed started measured (Number.nonneg d) = started + d ≡ measured
IsElapsed started measured (Number.neg d) = measured + (d + 1) ≡ started

elapsed-IsElapsed : (started measured : ℕ) → IsElapsed started measured (elapsed started measured)
elapsed-IsElapsed started measured = elim (Bool-cases (ltb measured started)) [
  | inl back ↦ rw back (ground arith)
  | inr on ↦ rw on (ground arith)
]

-- What the end of a run leaves as it was.
abbrev pub Keeps : RunRow → RunRow → Type 0
Keeps old new =
    (new.summary.kind ≡ old.summary.kind)
    × (new.summary.task ≡ old.summary.task)
    × (new.summary.brain ≡ old.summary.brain)
    × (new.summary.started_at ≡ old.summary.started_at)
    × (new.iterations ≡ old.iterations)
    × (new.action_count ≡ old.action_count)

-- However a stored run ends, its row and its outcome are settled. A finished run is completed and
-- a success of 0.8; one that is stuck or cancelled is aborted and partial with -0.3; one that timed
-- out or crashed is errored and a failure of -0.8, and only these two have an error text: the time
-- limit, or the text of the exception. The row has the time of the end and the duration, which is
-- negative when the clock was set back; its other columns stay, and the outcome is a derived one.
pub run_task-find_run :
    (e : Executor) (run_id : Text) (kind : RunKind) (task seconds : Text) (ending : Ending)
    (clock : Clock) (row : RunRow)
    → find_run run_id e.store.tables.runs ≡ some row
    → let t = (run_task e run_id kind task seconds ending clock).0.store.tables in
      (settled : RunRow) × (outcome : OutcomeRow) × (duration : Number) × (find_run run_id t.runs
        ≡ some settled)
      × (lookup run_id t.outcomes ≡ some outcome)
      × IsSettled kind seconds ending settled.summary.status settled.summary.error outcome.outcome
          outcome.score
      × (settled.summary.ended_at ≡ some clock.ended)
      × (settled.duration_s ≡ some duration)
      × IsElapsed clock.started clock.measured duration
      × Keeps row settled
      × (outcome.source ≡ codes "derived")
      × (outcome.rationale ≡ none)
      × (outcome.decided_at ≡ clock.decided)
unfolding run_task update_run_status update_run_metrics upsert_run_outcome
run_task-find_run e run_id kind task seconds ending clock row h =
    let close = set_status (final_status ending) clock.ended (error_of kind seconds ending) in
    let measure = set_metrics none none (some (elapsed clock.started clock.measured)) in
    (
      _,
      _,
      _,
      find_run-update_rows_self measure run_id _ (close row) (λ r. refl)
          (find_run-update_rows_self close run_id e.store.tables.runs row (λ r. refl) h),
      lookup_inserted run_id _ e.store.tables.outcomes,
      IsSettled_lem kind seconds ending,
      refl,
      refl,
      elapsed-IsElapsed clock.started clock.measured,
      (refl, refl, refl, refl, refl, refl),
      refl,
      refl,
      refl,
    )

-- Every event of the run has a number below `n`.
abbrev pub IsBelow : Text → ℕ → List EventRow → Type 0
IsBelow run_id n [] = Unit
IsBelow run_id n ((j, event) ∷ rows) =
    ((text_eq j run_id ≡ false) ⊎ (event.seq < n)) × IsBelow run_id n rows

has_event-IsBelow :
    (run_id : Text) (n : ℕ) (rows : List EventRow)
    → IsBelow run_id n rows
    → has_event run_id n rows ≡ false
has_event-IsBelow run_id n [] b = refl
has_event-IsBelow run_id n ((j, event) ∷ rows) b = elim b.0 [
  | inl foreign ↦ ground (arith, has_event-IsBelow run_id n rows b.1)
  | inr below ↦ ground (arith, has_event-IsBelow run_id n rows b.1, ==_iff event.seq n)
]

IsBelow-append :
    (run_id : Text) (n : ℕ) (rows : List EventRow) (event : RunEventRecord)
    → IsBelow run_id n rows
    → event.seq ≡ n
    → IsBelow run_id (n + 1) (rows ++ (run_id, event) ∷ [])
IsBelow-append run_id n [] event b h = (inr (omega arith), tt)
IsBelow-append run_id n ((j, old) ∷ rows) event b h = (
  elim b.0 [ inl foreign ↦ inl foreign | inr below ↦ inr (omega arith) ],
  IsBelow-append run_id n rows event b.1 h,
)

-- The store after an event with a new number.
abbrev with_event : RunStore → Text → RunEventRecord → RunStore
with_event s run_id event = record {
  tables = record s.tables { events = s.tables.events ++ (run_id, event) ∷ [] };
  lru = erase run_id s.lru;
}

append_event-fresh :
    (s : RunStore) (run_id : Text) (event : RunEventRecord)
    → has_event run_id event.seq s.tables.events ≡ false
    → append_event s run_id event ≡ some (with_event s run_id event)
unfolding append_event
append_event-fresh s run_id event fresh = rw fresh refl

-- Where the stored events of a run have numbers below its counter, an event is always stored: it
-- gets the number of the counter, the counter goes up by one, and the numbers stay below it.
pub emit_event-IsBelow :
    (e : Executor) (run_id kind : Text) (payload : Params) (now : ℕ)
    → IsBelow run_id (next_seq e run_id) e.store.tables.events
    → let (stored, e') = emit_event e run_id kind payload now in
      (stored ≡ some e'.store)
      × (e'.store.tables.events
          ≡ e.store.tables.events
            ++ (
              run_id,
              record { seq = next_seq e run_id; ts = now; kind = kind; payload = payload },
            )
              ∷ [])
      × (next_seq e' run_id ≡ next_seq e run_id + 1)
      × IsBelow run_id (next_seq e' run_id) e'.store.tables.events
unfolding emit_event
emit_event-IsBelow e run_id kind payload now b =
    let n = next_seq e run_id in
    let event : RunEventRecord = record { seq = n; ts = now; kind = kind; payload = payload } in
    let counted : next_seq (emit_event e run_id kind payload now).1 run_id ≡ n + 1 =
      ap number_or (lookup_inserted run_id (n + 1) e.seq) in
    rw
      (
        append_event-fresh e.store run_id event
            (has_event-IsBelow run_id n e.store.tables.events b),
        counted,
      )
      (refl, refl, refl, IsBelow-append run_id n e.store.tables.events event b refl)
