-- ===== src/Daemon/Store/Rows.antt =====
-- How the reads of one run see the writes for another, and an insertion.
use hyprland_agent.Prelude.{
  Text, text_eq, text_eq_iff, ◌≡◌, refl, false, some, List, [], ◌∷◌, ◌++◌, arith,
}
use hyprland_agent.Schemas.{RunEventRecord}
use hyprland_agent.Daemon.Store.Writes.{RunRow, EventRow, row_id, find_run, update_rows}
use hyprland_agent.Daemon.Store.Reads.{events_of}

-- An update that keeps the ids of the rows is not seen through another id.
pub find_run-update_rows_ne :
    (f : RunRow → RunRow) (run_id j : Text) (rows : List RunRow)
    → ((row : RunRow) → row_id (f row) ≡ row_id row)
    → text_eq j run_id ≡ false
    → find_run j (update_rows f run_id rows) ≡ find_run j rows
unfolding find_run update_rows
find_run-update_rows_ne f run_id j [] keeps ne = refl
find_run-update_rows_ne f run_id j (row ∷ rows) keeps ne = ground (
  arith,
  keeps row,
  text_eq_iff (row_id row) run_id,
  text_eq_iff (row_id row) j,
  text_eq_iff j run_id,
  find_run-update_rows_ne f run_id j rows keeps ne,
)

pub find_run-update_rows_self :
    (f : RunRow → RunRow) (run_id : Text) (rows : List RunRow) (row : RunRow)
    → ((row : RunRow) → row_id (f row) ≡ row_id row)
    → find_run run_id rows ≡ some row
    → find_run run_id (update_rows f run_id rows) ≡ some (f row)
unfolding find_run update_rows
find_run-update_rows_self f run_id [] row keeps e = cc
find_run-update_rows_self f run_id (r ∷ rows) row keeps e =
    ground (arith, keeps r, find_run-update_rows_self f run_id rows row keeps)

pub find_run-append :
    (j : Text) (rows : List RunRow) (row new : RunRow)
    → find_run j rows ≡ some row
    → find_run j (rows ++ new ∷ []) ≡ some row
unfolding find_run
find_run-append j [] row new e = cc
find_run-append j (r ∷ rows) row new e = ground (arith, find_run-append j rows row new)

pub events_of-append_ne :
    (run_id j : Text) (rows : List EventRow) (event : RunEventRecord)
    → text_eq run_id j ≡ false
    → events_of j (rows ++ (run_id, event) ∷ []) ≡ events_of j rows
unfolding events_of
events_of-append_ne run_id j [] event ne = rw ne
events_of-append_ne run_id j ((k, e) ∷ rows) event ne =
    ground (arith, events_of-append_ne run_id j rows event ne)
