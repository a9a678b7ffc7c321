-- ===== src/Daemon/Store.antt =====
-- `RunStore` of `src/agent/daemon/store.py`: the tables of runs, events, outcomes and feedback, and the
-- cache of run details. A table is the list of its rows, oldest first. SQLite is not part of the
-- repository: each SQL statement is read as the list operation that it denotes, a violated primary
-- key is an `IntegrityError`, and of rows with equal sort keys the older stands first.
pub mod Writes
pub mod Reads
pub mod Rows
pub mod Entries
pub mod Cache
pub mod Sequence
pub mod Race
pub mod Listing
mod Tests
