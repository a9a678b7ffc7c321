-- ===== src/Daemon/Store/Listing.antt =====
-- `list_runs`: the newest runs first.
use hyprland_agent.Prelude.{
  ℕ, ◌≤◌, ◌≡◌, refl, List, [], ◌∷◌, All, take, ltb, arith, Bool-cases, inl, inr,
}
use mathlib.Core.List.{Perm}
use mathlib.Core.List.Perm
use hyprland_agent.Schemas.{RunSummary}
use hyprland_agent.Daemon.Store.Writes.{RunStore}
use hyprland_agent.Daemon.Store.Reads.{insert_desc, sort_desc, summaries, list_runs}

abbrev pub IsNewestFirst : List RunSummary → Type 0
IsNewestFirst [] = Unit
IsNewestFirst (r ∷ rs) = All (λ q. q.started_at ≤ r.started_at) rs × IsNewestFirst rs

insert_desc-All :
    (P : RunSummary → Type 0) (r : RunSummary) (rs : List RunSummary)
    → P r
    → All P rs
    → All P (insert_desc r rs)
unfolding insert_desc
insert_desc-All P r [] p a = (p, tt)
insert_desc-All P r (q ∷ qs) p a = elim (Bool-cases (ltb r.started_at q.started_at)) [
  | inl later ↦ rw later (a.0, insert_desc-All P r qs p a.1)
  | inr first ↦ rw first (p, a)
]

older :
    (t u : ℕ) (rs : List RunSummary)
    → t ≤ u
    → All (λ q. q.started_at ≤ t) rs
    → All (λ q. q.started_at ≤ u) rs
older t u [] h a = tt
older t u (r ∷ rs) h a = (omega arith, older t u rs h a.1)

insert_desc-IsNewestFirst :
    (r : RunSummary) (rs : List RunSummary) → IsNewestFirst rs → IsNewestFirst (insert_desc r rs)
unfolding insert_desc
insert_desc-IsNewestFirst r [] s = (tt, tt)
insert_desc-IsNewestFirst r (q ∷ qs) s = elim (Bool-cases (ltb r.started_at q.started_at)) [
  | inl later ↦ rw later (
    insert_desc-All (λ x. x.started_at ≤ q.started_at) r qs (ground arith) s.0,
    insert_desc-IsNewestFirst r qs s.1,
  )
  | inr first ↦ rw first ((ground arith, older q.started_at r.started_at qs (ground arith) s.0), s)
]

insert_desc-perm : (r : RunSummary) (rs : List RunSummary) → Perm (insert_desc r rs) (r ∷ rs)
unfolding insert_desc
insert_desc-perm r [] = Perm.refl (r ∷ [])
insert_desc-perm r (q ∷ qs) = elim (Bool-cases (ltb r.started_at q.started_at)) [
  | inl later ↦ rw later (Perm.trans (Perm.cons q (insert_desc-perm r qs)) (Perm.swap r q qs))
  | inr first ↦ rw first (Perm.refl (r ∷ q ∷ qs))
]

sort_desc-perm : (rs : List RunSummary) → Perm (sort_desc rs) rs
unfolding sort_desc
sort_desc-perm [] = Perm.refl []
sort_desc-perm (r ∷ rs) =
    Perm.trans (insert_desc-perm r (sort_desc rs)) (Perm.cons r (sort_desc-perm rs))

sort_desc-IsNewestFirst : (rs : List RunSummary) → IsNewestFirst (sort_desc rs)
unfolding sort_desc
sort_desc-IsNewestFirst [] = tt
sort_desc-IsNewestFirst (r ∷ rs) =
    insert_desc-IsNewestFirst r (sort_desc rs) (sort_desc-IsNewestFirst rs)

-- `list_runs` returns the first `limit` of all stored runs put in order of their start, newest
-- first: no run that is left out started later than one that is returned.
pub list_runs-newest :
    (s : RunStore) (limit : ℕ)
    → (all : List RunSummary) × Perm all (summaries s.tables.runs)
      × IsNewestFirst all
      × (list_runs s limit ≡ take limit all)
unfolding list_runs
list_runs-newest s limit =
    let all = sort_desc (summaries s.tables.runs) in
    (
      all,
      sort_desc-perm (summaries s.tables.runs),
      sort_desc-IsNewestFirst (summaries s.tables.runs),
      refl,
    )
