-- ===== src/Learning/Miner.antt =====
-- `AllowlistMiner.mine` of `src/agent/learning/allowlist.py`: the misses of the allowlist become
-- proposals.
use hyprland_agent.Prelude.{
  ℕ, ◌+◌, ◌≡◌, refl, ap, ◌∙◌, Text, codes, text_eq, Bool, ◌&&◌, List, [], ◌∷◌, count_if,
  if◌then◌else◌, Bool-cases, inl, inr, arith,
}
use hyprland_agent.Safety.Allowlist.{Misses, drain_misses}
use hyprland_agent.Daemon.Learned.{Proposals, upsert_allowlist_proposal}
use hyprland_agent.Daemon.Learned.Counts.{
  hits_of, AllPending, Miss, upsert_all, hits_of-upsert_all, is_miss,
}

-- The `try` around one update; one that fails is logged and skipped.
abbrev pub upsert_if : Bool → Proposals → Text → ℕ → Proposals
upsert_if works p app_class now =
    if works then upsert_allowlist_proposal p app_class (codes "*") now else p

abbrev pub count_one : Bool → ℕ → ℕ
count_one works n = if works then n + 1 else n

-- `for (app_class, _title), _hits in misses.items()`: the updates that worked and the table.
-- `works` says which updates of the store succeed, and `clock` when.
unfoldable pub upsert_misses : Proposals → Misses → (ℕ → Bool) → (ℕ → ℕ) → ℕ → ℕ × Proposals
upsert_misses p [] works clock i = (0, p)
upsert_misses p (((app_class, title), hits) ∷ misses) works clock i =
    let (n, q) =
      upsert_misses (upsert_if (works i) p app_class (clock i)) misses works clock (i + 1) in
    (count_one (works i) n, q)

-- The count, the table and the counter of the misses after.
unfoldable pub mine : Misses → Proposals → (ℕ → Bool) → (ℕ → ℕ) → (ℕ × Proposals) × Misses
mine misses p works clock =
    let (drained, left) = drain_misses misses in (upsert_misses p drained works clock 0, left)

-- The windows of a class that were missed and whose update worked.
abbrev pub titles_of : Text → Misses → (ℕ → Bool) → ℕ → ℕ
titles_of c [] works i = 0
titles_of c (((app_class, title), hits) ∷ misses) works i =
    let rest = titles_of c misses works (i + 1) in
    if works i && text_eq app_class c then rest + 1 else rest

-- The updates that worked.
abbrev pub successes : Misses → (ℕ → Bool) → ℕ → ℕ
successes [] works i = 0
successes (miss ∷ misses) works i =
    let rest = successes misses works (i + 1) in if works i then rest + 1 else rest

abbrev as_misses : Misses → (ℕ → Bool) → (ℕ → ℕ) → ℕ → List Miss
as_misses [] works clock i = []
as_misses (((app_class, title), hits) ∷ misses) works clock i =
    let rest = as_misses misses works clock (i + 1) in
    if works i
    then record { app_class = app_class; title = codes "*"; seen_at = clock i } ∷ rest
    else rest

upsert_misses_lem :
    (p : Proposals) (misses : Misses) (works : ℕ → Bool) (clock : ℕ → ℕ) (i : ℕ)
    → (upsert_misses p misses works clock i).1 ≡ upsert_all p (as_misses misses works clock i)
unfolding upsert_misses
upsert_misses_lem p [] works clock i = refl
upsert_misses_lem p (((app_class, title), hits) ∷ misses) works clock i =
    elim (Bool-cases (works i)) [
      | inl worked ↦ rw worked (
          upsert_misses_lem (upsert_allowlist_proposal p app_class (codes "*") (clock i)) misses
            works clock (i + 1))
      | inr failed ↦ rw failed (upsert_misses_lem p misses works clock (i + 1))
    ]

upsert_misses-successes :
    (p : Proposals) (misses : Misses) (works : ℕ → Bool) (clock : ℕ → ℕ) (i : ℕ)
    → (upsert_misses p misses works clock i).0 ≡ successes misses works i
unfolding upsert_misses
upsert_misses-successes p [] works clock i = refl
upsert_misses-successes p (((app_class, title), hits) ∷ misses) works clock i =
    ap (count_one (works i)) (
      upsert_misses-successes (upsert_if (works i) p app_class (clock i)) misses works clock
        (i + 1))

count_misses :
    (c : Text) (misses : Misses) (works : ℕ → Bool) (clock : ℕ → ℕ) (i : ℕ)
    → count_if (is_miss c (codes "*")) (as_misses misses works clock i) ≡ titles_of c misses works i
count_misses c [] works clock i = refl
count_misses c (((app_class, title), hits) ∷ misses) works clock i =
    ground (arith, count_misses c misses works clock (i + 1))

-- While no proposal is decided, and whichever updates of the store fail: mining reports the number
-- of updates that worked, and the proposal for a class and any title counts one hit more for each
-- missed title of the class whose update worked, however often it was missed. What failed is lost:
-- mining what is left reports 0 and leaves the table as it is.
pub mine-titles_of :
    (misses : Misses) (p : Proposals) (works again : ℕ → Bool) (clock : ℕ → ℕ) (c : Text)
    → AllPending p.rows
    → let ((n, q), left) = mine misses p works clock in
      (n ≡ successes misses works 0)
      × (hits_of c (codes "*") q.rows ≡ hits_of c (codes "*") p.rows + titles_of c misses works 0)
      × (mine left q again clock ≡ ((0, q), []))
unfolding mine upsert_misses
mine-titles_of misses p works again clock c all_pending = (
  upsert_misses-successes p misses works clock 0,
  ap (λ (t : Proposals). hits_of c (codes "*") t.rows) (upsert_misses_lem p misses works clock 0)
      ∙ hits_of-upsert_all p c (codes "*") (as_misses misses works clock 0) all_pending
      ∙ ap (λ k. hits_of c (codes "*") p.rows + k) (count_misses c misses works clock 0),
  refl,
)
