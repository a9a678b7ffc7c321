-- ===== src/Voice/RingBuffer/Order.antt =====
-- The samples of the array in the order in which they were written, across a write.
use hyprland_agent.Prelude.{
  last, take-append_left, drop-append_left, drop_all, drop-append_le, drop-append_ge, drop-drop, ℕ,
  ◌+◌, ◌-◌, ◌≤◌, ◌<◌, ◌≡◌, sym, ap, ap₂, ◌∙◌, List, [], ◌++◌, length, take, drop, ◌==◌,
  length-append, length-take, length-drop, take-append-drop, leb, gt→leb, le→leb, lt→leb, arith,
  Bool-cases, ==_iff, inl, inr, append-nil, append_assoc,
}
use hyprland_agent.Voice.RingBuffer.{RingBuffer, place, advance}
use hyprland_agent.Voice.RingBuffer.View.{IsValid, advance_lem}

module _ {ℓ} {A : Type ℓ} where
  -- The samples in the order in which they were written, were the array full.
  abbrev pub unrolled : ℕ → List A → List A
  unrolled pos buffer = drop pos buffer ++ take pos buffer

  -- A chunk that fits before the end of the array.
  pub place_fits :
      (r : RingBuffer A) (chunk : List A)
      → IsValid r
      → r.pos + length chunk ≤ r.capacity
      → place r chunk ≡ (take r.pos r.buffer ++ chunk) ++ drop (r.pos + length chunk) r.buffer
  unfolding place
  place_fits r chunk v h =
      rw (le→leb (length chunk) (r.capacity - r.pos) (omega arith))
        (sym (append_assoc (take r.pos r.buffer) chunk (drop (r.pos + length chunk) r.buffer)))

  -- A chunk that wraps.
  place_wraps :
      (r : RingBuffer A) (chunk : List A)
      → IsValid r
      → r.capacity < r.pos + length chunk
      → length chunk < r.capacity
      → let space = r.capacity - r.pos in
        place r chunk
        ≡ drop space chunk
          ++ (drop (length chunk - space) (take r.pos r.buffer) ++ take space chunk)
  unfolding place
  place_wraps r chunk v h lt =
      let space = r.capacity - r.pos in
      let before = take r.pos r.buffer in
      let first = take space chunk in
      let no_more : drop r.capacity r.buffer ≡ [] = drop_all r.capacity r.buffer (omega arith) in
      rw (lt→leb (length chunk) space (omega arith), no_more, append-nil)
        (ap (λ t. drop space chunk ++ t)
          (drop-append_le (length chunk - space) before first
            (omega (arith, length-take r.pos r.buffer))))

  -- What the last samples are, of the old ones and the chunk together.
  last-unrolled :
      (r : RingBuffer A) (chunk : List A)
      → IsValid r
      → last r.capacity (unrolled r.pos r.buffer ++ chunk)
        ≡ drop (length chunk) (drop r.pos r.buffer ++ (take r.pos r.buffer ++ chunk))
  last-unrolled r chunk v =
      let after = drop r.pos r.buffer in
      let before = take r.pos r.buffer in
      ap₂ drop
        (omega (
          arith,
          length-append (after ++ before) chunk,
          length-append after before,
          length-drop r.pos r.buffer,
          length-take r.pos r.buffer,
        ))
        (append_assoc after before chunk)

  last_fits :
      (r : RingBuffer A) (chunk : List A)
      → IsValid r
      → r.pos + length chunk ≤ r.capacity
      → last r.capacity (unrolled r.pos r.buffer ++ chunk)
        ≡ drop (r.pos + length chunk) r.buffer ++ (take r.pos r.buffer ++ chunk)
  last_fits r chunk v h =
      last-unrolled r chunk v
      ∙ drop-append_le (length chunk) (drop r.pos r.buffer) (take r.pos r.buffer ++ chunk)
          (omega (arith, length-drop r.pos r.buffer))
      ∙ ap (λ t. t ++ (take r.pos r.buffer ++ chunk)) (drop-drop r.pos (length chunk) r.buffer)

  pub unrolled_inside :
      (r : RingBuffer A) (chunk : List A)
      → IsValid r
      → r.pos + length chunk < r.capacity
      → unrolled (advance r (length chunk)) (place r chunk)
        ≡ last r.capacity (unrolled r.pos r.buffer ++ chunk)
  unrolled_inside r chunk v h =
      let n = length chunk in
      let head = take r.pos r.buffer ++ chunk in
      let size_head : length head ≡ r.pos + n =
        omega (arith, length-append (take r.pos r.buffer) chunk, length-take r.pos r.buffer) in
      rw ((advance_lem r n v (omega arith)).1 h, place_fits r chunk v (omega arith))
        (ap₂ ◌++◌ (drop-append_left (r.pos + n) head (drop (r.pos + n) r.buffer) size_head)
          (take-append_left (r.pos + n) head (drop (r.pos + n) r.buffer) size_head))
      ∙ sym (last_fits r chunk v (omega arith))

  unrolled_exact :
      (r : RingBuffer A) (chunk : List A)
      → IsValid r
      → length chunk < r.capacity
      → r.pos + length chunk ≡ r.capacity
      → unrolled (advance r (length chunk)) (place r chunk)
        ≡ last r.capacity (unrolled r.pos r.buffer ++ chunk)
  unrolled_exact r chunk v lt h =
      let n = length chunk in
      let no_more : drop (r.pos + n) r.buffer ≡ [] = drop_all (r.pos + n) r.buffer (omega arith) in
      let wrapped = (advance_lem r n v lt).2 (omega arith) in
      let start : advance r n ≡ 0 = omega arith in
      rw (
        start,
        append-nil,
        place_fits r chunk v (omega arith),
        last_fits r chunk v (omega arith),
        no_more,
        append-nil,
      )

  unrolled_wraps :
      (r : RingBuffer A) (chunk : List A)
      → IsValid r
      → length chunk < r.capacity
      → r.capacity < r.pos + length chunk
      → unrolled (advance r (length chunk)) (place r chunk)
        ≡ last r.capacity (unrolled r.pos r.buffer ++ chunk)
  unrolled_wraps r chunk v lt h =
      let n = length chunk in
      let space = r.capacity - r.pos in
      let before = take r.pos r.buffer in
      let after = drop r.pos r.buffer in
      let wrapped = (advance_lem r n v lt).2 (omega arith) in
      let moved : advance r n ≡ n - space = omega arith in
      let rest = drop (n - space) before ++ take space chunk in
      let tail_size : length (drop space chunk) ≡ n - space = length-drop space chunk in
      rw (moved, place_wraps r chunk v h lt)
        (ap₂ ◌++◌ (drop-append_left (n - space) (drop space chunk) rest tail_size)
          (take-append_left (n - space) (drop space chunk) rest tail_size))
      ∙ append_assoc (drop (n - space) before) (take space chunk) (drop space chunk)
      ∙ ap (λ t. drop (n - space) before ++ t) (take-append-drop space chunk)
      ∙ sym (drop-append_le (n - space) before chunk (omega (arith, length-take r.pos r.buffer)))
      ∙ ap (λ k. drop k (before ++ chunk)) (omega (arith, length-drop r.pos r.buffer))
      ∙ sym (drop-append_ge n after (before ++ chunk) (omega (arith, length-drop r.pos r.buffer)))
      ∙ sym (last-unrolled r chunk v)

  -- The samples in order once the chunk is placed, whatever the flag says.
  pub unrolled-place :
      (r : RingBuffer A) (chunk : List A)
      → IsValid r
      → length chunk < r.capacity
      → unrolled (advance r (length chunk)) (place r chunk)
        ≡ last r.capacity (unrolled r.pos r.buffer ++ chunk)
  unrolled-place r chunk v lt = elim (Bool-cases (leb (r.pos + length chunk) r.capacity)) [
    | inr more ↦ unrolled_wraps r chunk v lt (gt→leb _ _ more)
    | inl less ↦ elim (Bool-cases (r.pos + length chunk == r.capacity)) [
      | inl same ↦ unrolled_exact r chunk v lt ((==_iff _ _).0 same)
      | inr ne ↦ unrolled_inside r chunk v (ground arith)
    ]
  ]
