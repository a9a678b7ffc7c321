-- ===== src/Safety/RateLimit/Window.antt =====
-- The limiter against an ideal one that remembers every granted action.
use hyprland_agent.Prelude.{
  ℕ, Text, ◌+◌, ◌*◌, ◌≤◌, ◌<◌, ◌≡◌, refl, sym, ap, ◌∙◌, Bool, not, List, [], ◌∷◌, ◌++◌, All,
  All-append, count_if, count_if-append, length, ltb, if◌then◌else◌, arith, text_key, text_eq,
  Bool-cases, inl, inr,
}
use hyprland_agent.Safety.RateLimit.{
  Limit, RateLimiter, window, second, is_expired, evict, bucket_of, check,
}

-- The granted actions, oldest first.
abbrev pub History : Type 0
History = List (Text × ℕ)

abbrev pub stamps : Text → History → List ℕ
stamps kind [] = []
stamps kind ((k, s) ∷ h) = if text_eq k kind then s ∷ stamps kind h else stamps kind h

-- Later than `now` minus the window.
abbrev pub is_recent : ℕ → ℕ → ℕ → Bool
is_recent now window_s stamp = not (is_expired now window_s stamp)

-- The ideal limiter counts the granted actions of the kind that the window holds.
abbrev pub ideal_check : Limit → History → Text → ℕ → Bool
ideal_check (max_actions, window_s) h kind now =
    ltb (count_if (is_recent now window_s) (stamps kind h)) max_actions

abbrev pub Ascending : List ℕ → Type 0
Ascending [] = Unit
Ascending (x ∷ xs) = All (λ y. x ≤ y) xs × Ascending xs

abbrev pub Expired : ℕ → ℕ → List ℕ → Type 0
Expired now window_s = All (λ s. s + window_s * second ≤ now)

abbrev pub Recent : ℕ → ℕ → List ℕ → Type 0
Recent now window_s = All (λ s. now < s + window_s * second)

pub Ascending-snoc :
    (xs : List ℕ) (now : ℕ) → Ascending xs → All (λ s. s ≤ now) xs → Ascending (xs ++ now ∷ [])
Ascending-snoc [] now a h = (tt, tt)
Ascending-snoc (x ∷ xs) now a h =
    (All-append _ xs (now ∷ []) a.0 (h.0, tt), Ascending-snoc xs now a.1 h.1)

Recent-of_le :
    (now w x : ℕ) (xs : List ℕ) → now < x + w * second → All (λ y. x ≤ y) xs → Recent now w xs
Recent-of_le now w x [] h a = tt
Recent-of_le now w x (y ∷ xs) h a = (omega arith, Recent-of_le now w x xs h a.1)

count-Expired : (now w : ℕ) (xs : List ℕ) → Expired now w xs → count_if (is_recent now w) xs ≡ 0
count-Expired now w [] h = refl
count-Expired now w (x ∷ xs) h = ground (arith, count-Expired now w xs h.1)

count-Recent :
    (now w : ℕ) (xs : List ℕ) → Recent now w xs → count_if (is_recent now w) xs ≡ length xs
count-Recent now w [] h = refl
count-Recent now w (x ∷ xs) h = ground (arith, count-Recent now w xs h.1)

pub Expired-later :
    (last now w : ℕ) (xs : List ℕ) → last ≤ now → Expired last w xs → Expired now w xs
Expired-later last now w [] h e = tt
Expired-later last now w (x ∷ xs) h e = (omega arith, Expired-later last now w xs h e.1)

pub le-later :
    (last now : ℕ) (xs : List ℕ) → last ≤ now → All (λ s. s ≤ last) xs → All (λ s. s ≤ now) xs
le-later last now [] h e = tt
le-later last now (x ∷ xs) h e = (omega arith, le-later last now xs h e.1)

-- What an eviction does to an ascending bucket: a prefix of expired stamps goes, and what is
-- left is recent.
pub record Evicts (now w : ℕ) (bucket : List ℕ) : Type 0 where
  pub gone : List ℕ
  pub split : bucket ≡ gone ++ evict now w bucket
  pub gone_expired : Expired now w gone
  pub left_recent : Recent now w (evict now w bucket)
  pub left_ascending : Ascending (evict now w bucket)

pub evict_lem : (now w : ℕ) (bucket : List ℕ) → Ascending bucket → Evicts now w bucket
unfolding evict
evict_lem now w [] a = record {
  gone = [];
  split = refl;
  gone_expired = tt;
  left_recent = tt;
  left_ascending = tt;
}
evict_lem now w (x ∷ xs) a = elim (Bool-cases (is_expired now w x)) [
  | inl e ↦
      let t = evict_lem now w xs a.1 in
      record {
        gone = x ∷ t.gone;
        split = ground (arith, t.split);
        gone_expired = (ground arith, t.gone_expired);
        left_recent = rw e t.left_recent;
        left_ascending = rw e t.left_ascending;
      }
  | inr e ↦ record {
    gone = [];
    split = ground arith;
    gone_expired = tt;
    left_recent = rw e (ground arith, Recent-of_le now w x xs (ground arith) a.0);
    left_ascending = rw e a;
  }
]

abbrev pub window_s : RateLimiter → Text → ℕ
window_s r kind = (window r kind).1

-- The bucket of a kind is what is left of the granted stamps once expired ones are dropped.
pub record Tracks (r : RateLimiter) (h : History) (last : ℕ) (kind : Text) : Type 0 where
  pub dropped : List ℕ
  pub split : stamps kind h ≡ dropped ++ bucket_of r kind
  pub gone : Expired last (window_s r kind) dropped
  pub ascending : Ascending (bucket_of r kind)
  pub past : All (λ s. s ≤ last) (bucket_of r kind)

-- The history after a call, by its answer.
abbrev pub note : History → Text → ℕ → Bool → History
note h kind now granted = if granted then h ++ (kind, now) ∷ [] else h

pub All-drop {ℓ} : {A : Type ℓ} (P : A → Type 0) (xs ys : List A) → All P (xs ++ ys) → All P ys
All-drop P [] ys h = h
All-drop P (x ∷ xs) ys h = All-drop P xs ys h.1

-- How many of the granted actions are recent: the length of the bucket once it is evicted.
recent_count :
    (r : RateLimiter) (h : History) (last now : ℕ) (kind : Text)
    → Tracks r h last kind
    → last ≤ now
    → count_if (is_recent now (window_s r kind)) (stamps kind h)
      ≡ length (evict now (window_s r kind) (bucket_of r kind))
recent_count r h last now kind t le =
    let w = window_s r kind in
    let v = evict_lem now w (bucket_of r kind) t.ascending in
    let left = evict now w (bucket_of r kind) in
    let same : stamps kind h ≡ t.dropped ++ (v.gone ++ left) =
      t.split ∙ ap (λ b. t.dropped ++ b) v.split in
    rw same (
      omega (
        arith,
        count_if-append (is_recent now w) t.dropped (v.gone ++ left),
        count_if-append (is_recent now w) v.gone left,
        count-Expired now w t.dropped (Expired-later last now w t.dropped le t.gone),
        count-Expired now w v.gone v.gone_expired,
        count-Recent now w left v.left_recent,
      ))

check_answer :
    (r : RateLimiter) (kind : Text) (now : ℕ)
    → (check r kind now).1
      ≡ ltb (length (evict now (window_s r kind) (bucket_of r kind))) (window r kind).0
unfolding check
check_answer r kind now = ground arith

-- The answer is the ideal one.
pub check-ideal :
    (r : RateLimiter) (h : History) (last now : ℕ) (kind : Text)
    → Tracks r h last kind
    → last ≤ now
    → (check r kind now).1 ≡ ideal_check (window r kind) h kind now
check-ideal r h last now kind t le =
    check_answer r kind now
    ∙ ap (λ n. ltb n (window r kind).0) (sym (recent_count r h last now kind t le))
