-- ===== src/Daemon/Store/Reads.antt =====
-- The read operations of the store: `list_runs` and `get_run`.
use hyprland_agent.Prelude.{
  ℕ, Text, text_eq, text_key, Option, none, some, List, [], ◌∷◌, ◌++◌, Dict, lookup, insert, erase,
  length, take, map, ltb, leb, if◌then◌else◌,
}
use hyprland_agent.Schemas.{RunSummary, RunRecord, RunEventRecord}
use hyprland_agent.Daemon.Store.Writes.{RunRow, EventRow, Tables, RunStore, lru_capacity, find_run}

-- `ORDER BY started_at DESC`
unfoldable pub insert_desc : RunSummary → List RunSummary → List RunSummary
insert_desc run [] = run ∷ []
insert_desc run (r ∷ rs) =
    if ltb run.started_at r.started_at then r ∷ insert_desc run rs else run ∷ r ∷ rs

unfoldable pub sort_desc : List RunSummary → List RunSummary
unfolding insert_desc
sort_desc [] = []
sort_desc (r ∷ rs) = insert_desc r (sort_desc rs)

abbrev pub summaries : List RunRow → List RunSummary
summaries = map (λ row. row.summary)

unfoldable pub list_runs : RunStore → ℕ → List RunSummary
unfolding sort_desc
list_runs s limit = take limit (sort_desc (summaries s.tables.runs))

-- `SELECT … FROM run_events WHERE run_id=? ORDER BY seq`
unfoldable pub insert_by_seq : RunEventRecord → List RunEventRecord → List RunEventRecord
insert_by_seq event [] = event ∷ []
insert_by_seq event (e ∷ es) =
    if leb event.seq e.seq then event ∷ e ∷ es else e ∷ insert_by_seq event es

unfoldable pub events_of : Text → List EventRow → List RunEventRecord
unfolding insert_by_seq
events_of run_id [] = []
events_of run_id ((j, event) ∷ rows) =
    if text_eq j run_id then insert_by_seq event (events_of run_id rows) else events_of run_id rows

-- What `_do_get_run` reads, put together.
unfoldable pub read_record : Tables → Text → Option RunRecord
read_record t run_id = elim (find_run run_id t.runs) [
  | none ↦ none
  | some row ↦ some (record { summary = row.summary; events = events_of run_id t.events })
]

-- `popitem(last=False)`
abbrev pub drop_oldest : Dict Text RunRecord → Dict Text RunRecord
drop_oldest [] = []
drop_oldest (entry ∷ lru) = lru

-- The part of `get_run` after the tables were read.
unfoldable pub cache_record : RunStore → Text → RunRecord → RunStore
cache_record s run_id r =
    let lru = insert run_id r s.lru in
    record s { lru = if ltb lru_capacity (length lru) then drop_oldest lru else lru }

-- The record, and the store with its cache: `move_to_end` on a hit.
unfoldable pub get_run : RunStore → Text → Option RunRecord × RunStore
get_run s run_id = elim (lookup run_id s.lru) [
  | some r ↦ (some r, record s { lru = erase run_id s.lru ++ (run_id, r) ∷ [] })
  | none ↦ elim (read_record s.tables run_id) [
    | none ↦ (none, s)
    | some r ↦ (some r, cache_record s run_id r)
  ]
]
