-- ===== src/Safety/RateLimit/Refines.antt =====
-- Schedules of calls of `check`: the limiter answers as the ideal one does, and never grants more
-- than the limit in any window.
use hyprland_agent.Prelude.{
  ℕ, Text, ◌≤◌, ◌≡◌, refl, ap, ◌∙◌, Bool, true, ◌&&◌, List, [], ◌∷◌, count_if, count_if-append, leb,
  arith, text_key, text_eq, text_eq_iff, Bool-cases, inl, inr, sym, subst,
}
use hyprland_agent.Safety.RateLimit.{Limit, RateLimiter, window, check}
use hyprland_agent.Safety.RateLimit.Window.{
  History, stamps, is_recent, ideal_check, Tracks, note, check-ideal, window_s,
}
use hyprland_agent.Safety.RateLimit.Keeps.{
  check-window, Tracks-check, Tracks-fresh, stamps-note_ne, stamps-note_self,
}

-- A schedule of calls, with the times at which the clock was read; the clock does not run back.
abbrev pub Schedule : Type 0
Schedule = List (Text × ℕ)

abbrev pub Chronological : ℕ → Schedule → Type 0
Chronological last [] = Unit
Chronological last ((kind, now) ∷ calls) = (last ≤ now) × Chronological now calls

-- The answers, and what was granted.
abbrev pub run : RateLimiter → Schedule → List Bool
run r [] = []
run r ((kind, now) ∷ calls) = let (r', granted) = check r kind now in granted ∷ run r' calls

abbrev pub granted : RateLimiter → History → Schedule → History
granted r h [] = h
granted r h ((kind, now) ∷ calls) =
    granted (check r kind now).0 (note h kind now (check r kind now).1) calls

-- The ideal limiter, whose limits are given by a function.
abbrev pub ideal_run : (Text → Limit) → History → Schedule → List Bool
ideal_run limit h [] = []
ideal_run limit h ((kind, now) ∷ calls) =
    let answer = ideal_check (limit kind) h kind now in
    answer ∷ ideal_run limit (note h kind now answer) calls

run-ideal_from :
    (limit : Text → Limit) (calls : Schedule) (r : RateLimiter) (h : History) (last : ℕ)
    → ((k : Text) → window r k ≡ limit k)
    → ((k : Text) → Tracks r h last k)
    → Chronological last calls
    → run r calls ≡ ideal_run limit h calls
run-ideal_from limit [] r h last same t c = refl
run-ideal_from limit ((kind, now) ∷ calls) r h last same t c =
    let (r', answer) = check r kind now in
    let first : answer ≡ ideal_check (limit kind) h kind now =
      check-ideal r h last now kind (t kind) c.0 ∙ ap (λ l. ideal_check l h kind now) (same kind) in
    rw (← first) (
      ap (λ rest. answer ∷ rest)
        (run-ideal_from limit calls r' (note h kind now answer) now
          (λ k. check-window r kind k now ∙ same k) (Tracks-check r h last now kind t c.0) c.1))

-- From empty buckets, whatever the limits are, and while the clock does not run back, the limiter
-- answers each call of a schedule as the ideal limiter does that counts the granted actions of
-- the kind in the window before the call.
pub run-ideal :
    (r : RateLimiter) (calls : Schedule)
    → r.buckets ≡ []
    → Chronological 0 calls
    → run r calls ≡ ideal_run (window r) [] calls
run-ideal r calls e c = run-ideal_from (window r) calls r [] 0 (λ k. refl) (Tracks-fresh r 0 e) c

-- At most `window_s` before `t`, and not after it.
abbrev pub in_window : ℕ → ℕ → ℕ → Bool
in_window t window_s s = leb s t && is_recent t window_s s

count-le :
    (p q : ℕ → Bool) (xs : List ℕ)
    → ((x : ℕ) → p x ≡ true → q x ≡ true)
    → count_if p xs ≤ count_if q xs
count-le p q [] h = omega arith
count-le p q (x ∷ xs) h = ground (arith, count-le p q xs h, h x)

-- One more granted stamp keeps every window within the limit.
note-bound :
    (limit : Limit) (h : History) (kind : Text) (now t : ℕ)
    → count_if (in_window t limit.1) (stamps kind h) ≤ limit.0
    → count_if (in_window t limit.1) (stamps kind (note h kind now (ideal_check limit h kind now)))
      ≤ limit.0
note-bound limit h kind now t le = elim (Bool-cases (ideal_check limit h kind now)) [
  | inr no_grant ↦ rw no_grant le
  | inl grant ↦
      rw (grant, stamps-note_self h kind now true)
        (ground (
          arith,
          count_if-append (in_window t limit.1) (stamps kind h) (now ∷ []),
          count-le (in_window t limit.1) (is_recent now limit.1) (stamps kind h),
        ))
]

module _ (limit : Text → Limit) (kind : Text) (t : ℕ) where
  -- The granted actions of the kind in the window that ends at `t` are within its limit.
  abbrev Bounded : History → Type 0
  Bounded h = count_if (in_window t (limit kind).1) (stamps kind h) ≤ (limit kind).0

  note-Bounded :
      (h : History) (k : Text) (now : ℕ)
      → Bounded h
      → Bounded (note h k now (ideal_check (limit k) h k now))
  note-Bounded h k now b = elim (Bool-cases (text_eq k kind)) [
    | inl e ↦
        subst (λ j. Bounded (note h j now (ideal_check (limit j) h j now)))
          (sym ((text_eq_iff k kind).0 e)) (note-bound (limit kind) h kind now t b)
    | inr ne ↦ rw (stamps-note_ne h k kind now (ideal_check (limit k) h k now) ne) b
  ]

  granted-Bounded :
      (calls : Schedule) (r : RateLimiter) (h : History) (last : ℕ)
      → ((k : Text) → window r k ≡ limit k)
      → ((k : Text) → Tracks r h last k)
      → Chronological last calls
      → Bounded h
      → Bounded (granted r h calls)
  granted-Bounded [] r h last same tr c b = b
  granted-Bounded ((k, now) ∷ calls) r h last same tr c b =
      let answer : (check r k now).1 ≡ ideal_check (limit k) h k now =
        check-ideal r h last now k (tr k) c.0 ∙ ap (λ l. ideal_check l h k now) (same k) in
      granted-Bounded calls (check r k now).0 (note h k now (check r k now).1) now
        (λ j. check-window r k j now ∙ same j) (Tracks-check r h last now k tr c.0) c.1
        (subst (λ a. Bounded (note h k now a)) (sym answer) (note-Bounded h k now b))

-- From empty buckets, and while the clock does not run back, no window of the configured length
-- ever holds more granted actions of a kind than the limit of the kind, wherever the window ends.
pub granted-bound :
    (r : RateLimiter) (calls : Schedule) (kind : Text) (t : ℕ)
    → r.buckets ≡ []
    → Chronological 0 calls
    → count_if (in_window t (window r kind).1) (stamps kind (granted r [] calls))
      ≤ (window r kind).0
granted-bound r calls kind t e c =
    granted-Bounded (window r) kind t calls r [] 0 (λ k. refl) (Tracks-fresh r 0 e) c (omega arith)
