-- ===== src/Safety/RateLimit/Keeps.antt =====
-- One call of `check` keeps the link between the buckets and the granted actions.
use hyprland_agent.Prelude.{
  ℕ, Text, ◌≤◌, ◌≡◌, refl, sym, ap, subst, ◌∙◌, Bool, true, false, List, [], ◌∷◌, ◌++◌, All,
  All-append, append_assoc, append-nil, if◌then◌else◌, arith, text_key, text_eq, text_eq_iff,
  text_eq_refl, lookup-insert, Bool-cases, inl, inr,
}
use hyprland_agent.Safety.RateLimit.{Limit, RateLimiter, window, evict, bucket_of, check}
use hyprland_agent.Safety.RateLimit.Window.{
  History, stamps, Ascending, Ascending-snoc, Expired, Expired-later, le-later, All-drop, evict_lem,
  window_s, Tracks, note,
}

pub check-window :
    (r : RateLimiter) (kind k : Text) (now : ℕ) → window (check r kind now).0 k ≡ window r k
unfolding check window
check-window r kind k now = ground arith

-- The bucket of the kind after a call.
abbrev next_bucket : RateLimiter → Text → ℕ → List ℕ
next_bucket r kind now =
    let left = evict now (window_s r kind) (bucket_of r kind) in
    if (check r kind now).1 then left ++ now ∷ [] else left

check-bucket_self :
    (r : RateLimiter) (kind : Text) (now : ℕ)
    → bucket_of (check r kind now).0 kind ≡ next_bucket r kind now
unfolding check
check-bucket_self r kind now =
    let left = evict now (window_s r kind) (bucket_of r kind) in
    ground (
      arith,
      lookup-insert kind kind left r.buckets,
      lookup-insert kind kind (left ++ now ∷ []) r.buckets,
      text_eq_refl kind,
    )

check-bucket_ne :
    (r : RateLimiter) (kind k : Text) (now : ℕ)
    → text_eq kind k ≡ false
    → bucket_of (check r kind now).0 k ≡ bucket_of r k
unfolding check
check-bucket_ne r kind k now ne =
    let left = evict now (window_s r kind) (bucket_of r kind) in
    ground (
      arith,
      lookup-insert kind k left r.buckets,
      lookup-insert kind k (left ++ now ∷ []) r.buckets,
    )

stamps-append :
    (kind : Text) (h g : History) → stamps kind (h ++ g) ≡ stamps kind h ++ stamps kind g
stamps-append kind [] g = refl
stamps-append kind ((k, s) ∷ h) g = ground (arith, stamps-append kind h g)

pub stamps-note_ne :
    (h : History) (kind k : Text) (now : ℕ) (granted : Bool)
    → text_eq kind k ≡ false
    → stamps k (note h kind now granted) ≡ stamps k h
stamps-note_ne h kind k now false ne = refl
stamps-note_ne h kind k now true ne =
    stamps-append k h ((kind, now) ∷ []) ∙ rw ne (append-nil (stamps k h))

pub stamps-note_self :
    (h : History) (kind : Text) (now : ℕ) (granted : Bool)
    → stamps kind (note h kind now granted)
      ≡ (if granted then stamps kind h ++ now ∷ [] else stamps kind h)
stamps-note_self h kind now false = refl
stamps-note_self h kind now true = stamps-append kind h ((kind, now) ∷ []) ∙ rw (text_eq_refl kind)

keep_gone :
    (r : RateLimiter) (kind k : Text) (now : ℕ) (xs : List ℕ)
    → Expired now (window_s r k) xs
    → Expired now (window_s (check r kind now).0 k) xs
keep_gone r kind k now xs =
    subst (λ (l : Limit). Expired now l.1 xs) (sym (check-window r kind k now))

-- A bucket with or without the new stamp.
abbrev grown : Bool → List ℕ → ℕ → List ℕ
grown granted left now = if granted then left ++ now ∷ [] else left

grown-Ascending :
    (granted : Bool) (left : List ℕ) (now : ℕ)
    → Ascending left
    → All (λ s. s ≤ now) left
    → Ascending (grown granted left now) × All (λ s. s ≤ now) (grown granted left now)
grown-Ascending true left now a p =
    (Ascending-snoc left now a p, All-append _ left (now ∷ []) p (omega arith, tt))
grown-Ascending false left now a p = (a, p)

grown-append :
    (granted : Bool) (before left : List ℕ) (now : ℕ)
    → grown granted (before ++ left) now ≡ before ++ grown granted left now
grown-append true before left now = append_assoc before left (now ∷ [])
grown-append false before left now = refl

-- Calls for another kind leave the bucket alone.
Tracks-other :
    (r : RateLimiter) (h : History) (last now : ℕ) (kind k : Text)
    → Tracks r h last k
    → last ≤ now
    → text_eq kind k ≡ false
    → Tracks (check r kind now).0 (note h kind now (check r kind now).1) now k
Tracks-other r h last now kind k t le ne =
    let same = check-bucket_ne r kind k now ne in
    record {
      dropped = t.dropped;
      split =
          stamps-note_ne h kind k now (check r kind now).1 ne
          ∙ t.split
          ∙ ap (λ b. t.dropped ++ b) (sym same);
      gone = keep_gone r kind k now t.dropped (Expired-later last now _ t.dropped le t.gone);
      ascending = rw same t.ascending;
      past = rw same (le-later last now _ le t.past);
    }

-- Calls for the kind itself: the evicted stamps join the dropped ones.
Tracks-self :
    (r : RateLimiter) (h : History) (last now : ℕ) (kind : Text)
    → Tracks r h last kind
    → last ≤ now
    → Tracks (check r kind now).0 (note h kind now (check r kind now).1) now kind
Tracks-self r h last now kind t le =
    let w = window_s r kind in
    let v = evict_lem now w (bucket_of r kind) t.ascending in
    let left = evict now w (bucket_of r kind) in
    let left_past : All (λ s. s ≤ now) left =
      All-drop (λ s. s ≤ now) v.gone left
        (subst (All (λ s. s ≤ now)) v.split (le-later last now _ le t.past)) in
    let whole : stamps kind h ≡ (t.dropped ++ v.gone) ++ left =
      t.split ∙ ap (λ b. t.dropped ++ b) v.split ∙ sym (append_assoc t.dropped v.gone left) in
    let granted = (check r kind now).1 in
    let same = check-bucket_self r kind now in
    let next = grown-Ascending granted left now v.left_ascending left_past in
    record {
      dropped = t.dropped ++ v.gone;
      split =
          stamps-note_self h kind now granted
          ∙ ap (λ b. grown granted b now) whole
          ∙ grown-append granted (t.dropped ++ v.gone) left now
          ∙ ap (λ b. (t.dropped ++ v.gone) ++ b) (sym same);
      gone = keep_gone r kind kind now (t.dropped ++ v.gone) (
          All-append _ t.dropped v.gone (Expired-later last now _ t.dropped le t.gone)
            v.gone_expired);
      ascending = rw same next.0;
      past = rw same next.1;
    }

pub Tracks-check :
    (r : RateLimiter) (h : History) (last now : ℕ) (kind : Text)
    → ((k : Text) → Tracks r h last k)
    → last ≤ now
    → (k : Text) → Tracks (check r kind now).0 (note h kind now (check r kind now).1) now k
Tracks-check r h last now kind t le k = elim (Bool-cases (text_eq kind k)) [
  | inl e ↦
      subst (Tracks (check r kind now).0 (note h kind now (check r kind now).1) now)
        ((text_eq_iff kind k).0 e) (Tracks-self r h last now kind (t kind) le)
  | inr ne ↦ Tracks-other r h last now kind k (t k) le ne
]

pub Tracks-fresh : (r : RateLimiter) (last : ℕ) → r.buckets ≡ [] → (k : Text) → Tracks r [] last k
Tracks-fresh r last e k =
    let empty : bucket_of r k ≡ [] = rw e in
    record {
      dropped = [];
      split = sym empty;
      gone = tt;
      ascending = rw empty tt;
      past = rw empty tt;
    }
