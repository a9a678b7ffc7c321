-- ===== src/Brain/Compact/Rounds.antt =====
-- What `compact_messages` of `src/agent/brain/_common.py` keeps, in rounds.
use hyprland_agent.Prelude.{
  ℕ, zero, suc, ◌+◌, ◌-◌, ◌<◌, ◌≤◌, min, ◌≡◌, refl, ap, sym, subst, ◌∙◌, inl, inr, Bool, true,
  false, ◌&&◌, List, [], ◌∷◌, ◌++◌, length, drop, count_if, ◌==◌, if◌then◌else◌, Bool-cases, arith,
}
use hyprland_agent.Brain.Compact.{Message, is_user, round_starts, item, keep_index, compact_rest}

-- How many rounds a conversation has.
abbrev pub rounds : List Message → ℕ
rounds = count_if is_user

-- The messages from the user message on that leaves `k` rounds.
unfoldable pub last_rounds : ℕ → List Message → List Message
last_rounds k [] = []
last_rounds k (m ∷ ms) =
    let rest = last_rounds k ms in if rounds (m ∷ ms) == k && is_user m then m ∷ ms else rest

length-round_starts : (i : ℕ) (ms : List Message) → length (round_starts i ms) ≡ rounds ms
unfolding round_starts
length-round_starts i [] = refl
length-round_starts i (m ∷ ms) = ground (arith, length-round_starts (i + 1) ms)

-- The messages from the start of round `j` on.
drop-round_starts :
    (i j : ℕ) (ms : List Message)
    → j < rounds ms
    → (d : ℕ) × (item (round_starts i ms) j ≡ i + d) × (drop d ms ≡ last_rounds (rounds ms - j) ms)
unfolding round_starts last_rounds
drop-round_starts i j [] h = absurd (omega arith)
drop-round_starts i zero (m ∷ ms) h = elim (Bool-cases (is_user m)) [
  | inl u ↦ (0, ground arith, ground arith)
  | inr u ↦
      let ih = drop-round_starts (i + 1) 0 ms (ground arith) in
      (suc ih.0, ground (arith, ih.1), ground (arith, ih.2))
]
drop-round_starts i (suc j) (m ∷ ms) h = elim (Bool-cases (is_user m)) [
  | inl u ↦
      let ih = drop-round_starts (i + 1) j ms (ground arith) in
      (suc ih.0, ground (arith, ih.1), ground (arith, ih.2))
  | inr u ↦
      let ih = drop-round_starts (i + 1) (suc j) ms (ground arith) in
      (suc ih.0, ground (arith, ih.1), ground (arith, ih.2))
]

abbrev starts_round : List Message → Bool
starts_round [] = false
starts_round (m ∷ ms) = is_user m

-- The last `k` rounds are a suffix that begins with a user message.
abbrev pub Kept : ℕ → List Message → List Message → Type 0
Kept k rest kept =
    ((dropped : List Message) × (rest ≡ dropped ++ kept))
    × (rounds kept ≡ k)
    × (starts_round kept ≡ true)

pub last_rounds_here :
    (k : ℕ) (m : Message) (ms : List Message)
    → (rounds (m ∷ ms) == k && is_user m) ≡ true
    → last_rounds k (m ∷ ms) ≡ m ∷ ms
unfolding last_rounds
last_rounds_here k m ms e = rw e

pub last_rounds_later :
    (k : ℕ) (m : Message) (ms : List Message)
    → (rounds (m ∷ ms) == k && is_user m) ≡ false
    → last_rounds k (m ∷ ms) ≡ last_rounds k ms
unfolding last_rounds
last_rounds_later k m ms e = rw e

last_rounds-Kept :
    (k : ℕ) (ms : List Message) → 0 < k → k ≤ rounds ms → Kept k ms (last_rounds k ms)
last_rounds-Kept k [] h0 h = absurd (omega arith)
last_rounds-Kept k (m ∷ ms) h0 h = elim (Bool-cases (rounds (m ∷ ms) == k && is_user m)) [
  | inl e ↦
      subst (Kept k (m ∷ ms)) (sym (last_rounds_here k m ms e))
        (([], refl), ground arith, ground arith)
  | inr e ↦
      let ih = last_rounds-Kept k ms h0 (ground arith) in
      subst (Kept k (m ∷ ms)) (sym (last_rounds_later k m ms e))
        ((m ∷ ih.0.0, ap (◌∷◌ m) ih.0.1), ih.1, ih.2)
]

compact_rest_some :
    (keep_rounds : ℕ) (rest : List Message) (starts : List ℕ)
    → 0 < length starts
    → compact_rest keep_rounds rest starts
      ≡ drop (item starts (keep_index keep_rounds (length starts))) rest
unfolding compact_rest
compact_rest_some keep_rounds rest [] h = absurd (omega arith)
compact_rest_some keep_rounds rest (i ∷ starts) h = refl

-- With at least one round to keep, what is kept of the messages is the last rounds.
pub compact_rest-last_rounds :
    (keep_rounds : ℕ) (rest : List Message)
    → 0 < keep_rounds
    → 0 < rounds rest
    → compact_rest keep_rounds rest (round_starts 0 rest)
      ≡ last_rounds (min keep_rounds (rounds rest)) rest
compact_rest-last_rounds keep_rounds rest h0 h1 =
    let starts = round_starts 0 rest in
    let n = length-round_starts 0 rest in
    let k = keep_index keep_rounds (length starts) in
    let bound : k < rounds rest = ground (arith, n) in
    let at = drop-round_starts 0 k rest bound in
    let d : item starts k ≡ at.0 = omega (arith, at.1) in
    let left : rounds rest - k ≡ min keep_rounds (rounds rest) = ground (arith, n) in
    compact_rest_some keep_rounds rest starts (omega (arith, n))
    ∙ ap (λ j. drop j rest) d
    ∙ at.2
    ∙ ap (λ j. last_rounds j rest) left

pub compact_rest-Kept :
    (keep_rounds : ℕ) (rest : List Message)
    → 0 < keep_rounds
    → 0 < rounds rest
    → Kept
        (min keep_rounds (rounds rest))
        rest
        (compact_rest keep_rounds rest (round_starts 0 rest))
compact_rest-Kept keep_rounds rest h0 h1 =
    subst (Kept (min keep_rounds (rounds rest)) rest)
      (sym (compact_rest-last_rounds keep_rounds rest h0 h1))
      (last_rounds-Kept (min keep_rounds (rounds rest)) rest (ground arith) (ground arith))

-- Any number of rounds to keep, 0 too, leaves at least one round.
pub compact_rest_some_rounds :
    (keep_rounds : ℕ) (rest : List Message)
    → 0 < rounds rest
    → (k : ℕ) × (0 < k)
      × (k ≤ rounds rest)
      × (compact_rest keep_rounds rest (round_starts 0 rest) ≡ last_rounds k rest)
compact_rest_some_rounds keep_rounds rest h1 =
    let starts = round_starts 0 rest in
    let n = length-round_starts 0 rest in
    let k = keep_index keep_rounds (length starts) in
    let bound : k < rounds rest = ground (arith, n) in
    let at = drop-round_starts 0 k rest bound in
    let d : item starts k ≡ at.0 = omega (arith, at.1) in
    (
      rounds rest - k,
      omega (arith, bound),
      omega arith,
      compact_rest_some keep_rounds rest starts (omega (arith, n)) ∙ ap (λ j. drop j rest) d ∙ at.2,
    )
