-- ===== src/Daemon/Store/Tests.antt =====
-- The store at concrete inputs.
use hyprland_agent.Prelude.{ℕ, Text, codes, ◌≡◌, ◌≢◌, refl, none, some, List, [], ◌∷◌, take, arith}
use mathlib.Core.List.{Perm}
use hyprland_agent.Schemas.{RunStatus, RunKind, RunSummary, RunRecord, RunEventRecord}
use hyprland_agent.Daemon.Store.Writes
use hyprland_agent.Daemon.Store.Writes.{Tables, RunStore, new_row, find_run}
use hyprland_agent.Daemon.Store.Reads.{
  read_record, get_run, list_runs, cache_record, summaries, events_of,
}
use hyprland_agent.Daemon.Store.Entries.{IsCoherent}
use hyprland_agent.Daemon.Store.Cache.{get_run-read_record}
use hyprland_agent.Daemon.Store.Sequence.{Call, Reply, replies, uncached_replies, replies-uncached}
use hyprland_agent.Daemon.Store.Race.{interleaved, interleaved-stale}
use hyprland_agent.Daemon.Store.Listing.{IsNewestFirst, list_runs-newest}

abbrev no_tables : Tables
no_tables = record { runs = []; events = []; outcomes = []; feedback = []; last_feedback_id = 0 }

abbrev empty : RunStore
empty = record { tables = no_tables; lru = [] }

abbrev summary : Text → ℕ → RunSummary
summary id t = record {
  run_id = id;
  kind = RunKind.run;
  task = codes "t";
  brain = codes "b";
  status = RunStatus.running;
  started_at = t;
  ended_at = none;
  error = none;
}

abbrev event : ℕ → RunEventRecord
event n = record { seq = n; ts = 5; kind = codes "start"; payload = [] }

abbrev a_run : RunRecord
a_run = record { summary = summary (codes "a") 1; events = [] }

abbrev calls : List Call
calls =
    Call.insert_run (summary (codes "a") 1)
    ∷ Call.get_run (codes "a")
    ∷ Call.append_event (codes "a") (event 0)
    ∷ Call.append_event (codes "a") (event 0)
    ∷ Call.get_run (codes "a")
    ∷ []

run_calls :
    replies empty calls
    ≡ Reply.done
      ∷ Reply.found (some a_run)
      ∷ Reply.done
      ∷ Reply.integrity_error
      ∷ Reply.found (some (record a_run { events = event 0 ∷ [] }))
      ∷ []
unfolding Writes.insert_run Writes.append_event get_run read_record cache_record find_run events_of
run_calls = refl

empty-IsCoherent : IsCoherent empty
empty-IsCoherent = record { fresh = tt; bounded = omega arith }

abbrev one_run : RunStore
one_run = record empty { tables = record no_tables { runs = new_row (summary (codes "a") 1) ∷ [] } }

one_run-IsCoherent : IsCoherent one_run
one_run-IsCoherent = record { fresh = tt; bounded = omega arith }

stored : read_record one_run.tables (codes "a") ≡ some a_run
unfolding read_record find_run events_of
stored = refl

replies-uncached_example : replies empty calls ≡ uncached_replies no_tables calls
replies-uncached_example = replies-uncached empty calls empty-IsCoherent

get_run-read_record_example :
    ((get_run one_run (codes "a")).0 ≡ read_record one_run.tables (codes "a"))
    × ((get_run one_run (codes "a")).1.tables ≡ one_run.tables)
    × IsCoherent (get_run one_run (codes "a")).1
get_run-read_record_example = get_run-read_record one_run (codes "a") one_run-IsCoherent

interleaved-stale_example :
    ((get_run (interleaved one_run (codes "a") a_run RunStatus.completed 9) (codes "a")).0
      ≡ some a_run)
    × (read_record (interleaved one_run (codes "a") a_run RunStatus.completed 9).tables (codes "a")
        ≢ some a_run)
interleaved-stale_example =
    interleaved-stale one_run (codes "a") a_run RunStatus.completed 9 stored (λ e. cc) (omega arith)

list_runs-newest_example :
    (all : List RunSummary) × Perm all (summaries one_run.tables.runs)
    × IsNewestFirst all
    × (list_runs one_run 5 ≡ take 5 all)
list_runs-newest_example = list_runs-newest one_run 5
