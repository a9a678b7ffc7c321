-- ===== src/Daemon/Store/Race.antt =====
-- `get_run` takes no lock: between its read of the tables and its write of the cache another
-- operation may run.
use hyprland_agent.Prelude.{
  ℕ, Text, text_eq_refl, text_key, ◌≡◌, ◌≢◌, refl, none, some, [], ◌∷◌, Dict, lookup, insert,
  lookup-insert, length, arith, Option-cases, inl, inr, ◌<◌, ◌≤◌, ◌+◌,
}
use hyprland_agent.Schemas.{RunStatus, RunRecord}
use hyprland_agent.Daemon.Store.Writes.{
  RunStore, lru_capacity, find_run, set_status, update_run_status,
}
use hyprland_agent.Daemon.Store.Reads.{read_record, cache_record, get_run}
use hyprland_agent.Daemon.Store.Entries.{length-erase-le}
use hyprland_agent.Daemon.Store.Rows.{find_run-update_rows_self}

-- A read of the tables, then a change of status, then the write of the cache with what was read.
abbrev pub interleaved : RunStore → Text → RunRecord → RunStatus → ℕ → RunStore
interleaved s id r status now = cache_record (update_run_status s id status none none now) id r

-- The change of status is in the tables.
read_record-update_run_status :
    (s : RunStore) (id : Text) (r : RunRecord) (status : RunStatus) (now : ℕ)
    → read_record s.tables id ≡ some r
    → read_record (update_run_status s id status none none now).tables id
      ≡ some (record r {
        summary = record r.summary { status = status; ended_at = some now; error = none };
      })
unfolding read_record update_run_status
read_record-update_run_status s id r status now e =
    elim (Option-cases (find_run id s.tables.runs)) [
      | inl missing ↦ absurd (ground arith)
      | inr (row, found) ↦ ground (
        arith,
        find_run-update_rows_self (set_status status now none) id s.tables.runs row (λ row. refl)
            found,
      )
    ]

length-insert-le :
    (id : Text) (r : RunRecord) (lru : Dict Text RunRecord)
    → length (insert id r lru) ≤ length lru + 1
length-insert-le id r [] = omega arith
length-insert-le id r ((j, q) ∷ lru) = ground (arith, length-insert-le id r lru)

lookup-cache_record :
    (s : RunStore) (id : Text) (r : RunRecord)
    → length s.lru < lru_capacity
    → lookup id (cache_record s id r).lru ≡ some r
unfolding cache_record
lookup-cache_record s id r room =
    ground (arith, length-insert-le id r s.lru, lookup-insert id id r s.lru, text_eq_refl id)

get_run_hit :
    (s : RunStore) (id : Text) (r : RunRecord)
    → lookup id s.lru ≡ some r
    → (get_run s id).0 ≡ some r
unfolding get_run
get_run_hit s id r hit = ground arith

-- With room in the cache, when the status of a run is changed between the two halves of a
-- `get_run` of it, the next `get_run` returns the record with the old status, and the tables hold
-- another one.
pub interleaved-stale :
    (s : RunStore) (id : Text) (r : RunRecord) (status : RunStatus) (now : ℕ)
    → read_record s.tables id ≡ some r
    → r.summary.status ≢ status
    → length s.lru < lru_capacity
    → ((get_run (interleaved s id r status now) id).0 ≡ some r)
      × (read_record (interleaved s id r status now).tables id ≢ some r)
unfolding cache_record update_run_status
interleaved-stale s id r status now stored change room =
    let s' = update_run_status s id status none none now in
    (
      get_run_hit (cache_record s' id r) id r
          (lookup-cache_record s' id r (omega (arith, length-erase-le id s.lru))),
      λ e. change (ground (arith, read_record-update_run_status s id r status now stored)),
    )
