-- ===== src/Daemon/Store/Cache.antt =====
-- The cache of run details cannot be told from no cache, as long as operations run one by one.
use hyprland_agent.Prelude.{
  ℕ, Text, text_eq, text_eq_iff, text_key, ◌+◌, ◌≤◌, ◌≡◌, refl, sym, subst, false, not, ◌&&◌,
  is_some, Option, none, some, [], ◌∷◌, ◌++◌, lookup, erase, length, length-append, All, All-append,
  ltb, arith, Bool-cases, Option-cases, inl, inr,
}
use hyprland_agent.Schemas.{Number, RunStatus, RunSummary, RunRecord, RunEventRecord}
use hyprland_agent.Daemon.Store.Writes.{
  RunRow, Tables, RunStore, lru_capacity, row_id, find_run, update_rows, insert_run, set_status,
  update_run_status, append_event, set_metrics, update_run_metrics, new_row, value_or,
}
use hyprland_agent.Daemon.Store.Reads.{read_record, cache_record, get_run}
use hyprland_agent.Daemon.Store.Entries.{
  Agrees, IsCoherent, lookup-All, erase-All, length-erase-lt, insert-absent, erase-IsCoherent,
  All-weaken, drop_oldest-All, length-drop_oldest,
}
use hyprland_agent.Daemon.Store.Rows.{find_run-update_rows_ne, find_run-append, events_of-append_ne}

update_rows-read_record :
    (t : Tables) (f : RunRow → RunRow) (id j : Text) (r : RunRecord)
    → ((row : RunRow) → row_id (f row) ≡ row_id row)
    → text_eq j id ≡ false
    → read_record t j ≡ some r
    → read_record (record t { runs = update_rows f id t.runs }) j ≡ some r
unfolding read_record
update_rows-read_record t f id j r keeps ne e =
    ground (arith, find_run-update_rows_ne f id j t.runs keeps ne)

append_event-read_record :
    (t : Tables) (id j : Text) (event : RunEventRecord) (r : RunRecord)
    → text_eq j id ≡ false
    → read_record t j ≡ some r
    → read_record (record t { events = t.events ++ (id, event) ∷ [] }) j ≡ some r
unfolding read_record
append_event-read_record t id j event r ne e =
    ground (arith, text_eq_iff j id, text_eq_iff id j, events_of-append_ne id j t.events event)

new_row-read_record :
    (t : Tables) (run : RunSummary) (j : Text) (r : RunRecord)
    → read_record t j ≡ some r
    → read_record (record t { runs = t.runs ++ new_row run ∷ [] }) j ≡ some r
unfolding read_record
new_row-read_record t run j r e = elim (Option-cases (find_run j t.runs)) [
  | inl missing ↦ absurd (ground arith)
  | inr (row, found) ↦ ground (arith, find_run-append j t.runs row (new_row run) found)
]

pub insert_run-IsCoherent :
    (s s' : RunStore) (run : RunSummary) → IsCoherent s → insert_run s run ≡ some s' → IsCoherent s'
unfolding insert_run
insert_run-IsCoherent s s' run c e =
    let t : Tables = record s.tables { runs = s.tables.runs ++ new_row run ∷ [] } in
    let made : record s { tables = t } ≡ s' = ground arith in
    subst IsCoherent made (record {
      fresh =
          All-weaken (Agrees s.tables) (Agrees t) s.lru
            (λ e. new_row-read_record s.tables run e.0 e.1) c.fresh;
      bounded = c.bounded;
    })

pub update_run_status-IsCoherent :
    (s : RunStore) (id : Text) (status : RunStatus) (ended : Option ℕ) (error : Option Text)
    (now : ℕ)
    → IsCoherent s
    → IsCoherent (update_run_status s id status ended error now)
unfolding update_run_status
update_run_status-IsCoherent s id status ended error now c =
    let f = set_status status (value_or ended now) error in
    erase-IsCoherent s (record s.tables { runs = update_rows f id s.tables.runs }) id c
      (λ j r. update_rows-read_record s.tables f id j r (λ row. refl))

pub update_run_metrics-IsCoherent :
    (s : RunStore) (id : Text) (iterations actions : Option ℕ) (duration : Option Number)
    → IsCoherent s
    → IsCoherent (update_run_metrics s id iterations actions duration)
unfolding update_run_metrics
update_run_metrics-IsCoherent s id iterations actions duration c =
    let f = set_metrics iterations actions duration in
    let kept =
      erase-IsCoherent s (record s.tables { runs = update_rows f id s.tables.runs }) id c
        (λ j r. update_rows-read_record s.tables f id j r (λ row. refl)) in
    elim (Bool-cases
      (not (is_some iterations) && (not (is_some actions) && not (is_some duration)))) [
        | inl idle ↦ rw idle c
        | inr some_metric ↦ rw some_metric kept
      ]

pub append_event-IsCoherent :
    (s s' : RunStore) (id : Text) (event : RunEventRecord)
    → IsCoherent s
    → append_event s id event ≡ some s'
    → IsCoherent s'
unfolding append_event
append_event-IsCoherent s s' id event c e =
    let t : Tables = record s.tables { events = s.tables.events ++ (id, event) ∷ [] } in
    let made : record { tables = t; lru = erase id s.lru } ≡ s' = ground arith in
    subst IsCoherent made
      (erase-IsCoherent s t id c (λ j r. append_event-read_record s.tables id j event r))

cache_record-IsCoherent :
    (s : RunStore) (id : Text) (r : RunRecord)
    → IsCoherent s
    → lookup id s.lru ≡ none
    → read_record s.tables id ≡ some r
    → IsCoherent (cache_record s id r)
unfolding cache_record
cache_record-IsCoherent s id r c absent e =
    let grown : All (Agrees s.tables) (s.lru ++ (id, r) ∷ []) =
      All-append (Agrees s.tables) s.lru ((id, r) ∷ []) c.fresh (e, tt) in
    let size : length (s.lru ++ (id, r) ∷ []) ≤ lru_capacity + 1 =
      omega (arith, length-append s.lru ((id, r) ∷ []), c.bounded) in
    rw (insert-absent id r s.lru absent)
      (elim (Bool-cases (ltb lru_capacity (length (s.lru ++ (id, r) ∷ [])))) [
        | inl over ↦ rw over (record {
          fresh = drop_oldest-All (Agrees s.tables) (s.lru ++ (id, r) ∷ []) grown;
          bounded = omega (arith, length-drop_oldest (s.lru ++ (id, r) ∷ []), size);
        })
        | inr fits ↦ rw fits (record { fresh = grown; bounded = ground arith })
      ])

cache_record_tables :
    (s : RunStore) (id : Text) (r : RunRecord) → (cache_record s id r).tables ≡ s.tables
unfolding cache_record
cache_record_tables s id r = refl

-- Asked one by one, the store answers `get_run` from the tables, cache or no cache, changes no
-- table, and stays coherent: at most 16 records are cached.
pub get_run-read_record :
    (s : RunStore) (id : Text)
    → IsCoherent s
    → ((get_run s id).0 ≡ read_record s.tables id)
      × ((get_run s id).1.tables ≡ s.tables)
      × IsCoherent (get_run s id).1
unfolding get_run
get_run-read_record s id c = elim (Option-cases (lookup id s.lru)) [
  | inr (r, hit) ↦
      let stored = lookup-All (Agrees s.tables) s.lru id r c.fresh hit in
      rw (hit, get_run)
        (
          sym stored,
          refl,
          record {
            fresh =
                All-append (Agrees s.tables) (erase id s.lru) ((id, r) ∷ [])
                  (erase-All (Agrees s.tables) (Agrees s.tables) id s.lru (λ e ne a. a) c.fresh)
                  (stored, tt);
            bounded = omega (
              arith,
              length-append (erase id s.lru) ((id, r) ∷ []),
              length-erase-lt id s.lru r hit,
              c.bounded,
            );
          },
        )
  | inl miss ↦ elim (Option-cases (read_record s.tables id)) [
    | inl absent ↦ rw (miss, get_run, absent) (refl, refl, c)
    | inr (r, found) ↦
        rw (miss, get_run, found)
          (refl, cache_record_tables s id r, cache_record-IsCoherent s id r c miss found)
  ]
]
