-- ===== src/Voice/RingBuffer/Writes.antt =====
-- What a write does to the samples that `read` returns.
use hyprland_agent.Prelude.{
  last, take-append_left, last-append, last_short, ℕ, ◌+◌, ◌≤◌, ◌<◌, ◌≡◌, ◌≢◌, sym, ap, ap₂, ◌∙◌,
  Bool, true, false, not, ◌&&◌, ◌||◌, List, [], ◌∷◌, ◌++◌, length, take, drop, min, ltb, ◌==◌,
  length-append, length-take, leb, leb→le, gt→leb, le→leb, arith, Bool-cases, ==_iff, inl, inr,
  append-nil, append_assoc,
}
use hyprland_agent.Voice.RingBuffer.{RingBuffer, place, advance, next_full, write, read, size}
use hyprland_agent.Voice.RingBuffer.View.{IsValid, advance_lem, length-read}
use hyprland_agent.Voice.RingBuffer.Order.{unrolled, unrolled-place, place_fits}

module _ {ℓ} {A : Type ℓ} where
  -- Whether the array holds `capacity` samples after a chunk of `n`.
  abbrev pub is_filled : RingBuffer A → ℕ → Bool
  is_filled r n = r.full || leb r.capacity (r.pos + n)

  -- The writes at which the flag is set wrongly: too early, when the position stays below the
  -- capacity and a second chunk of the same length would reach it; or not at all, when the chunk
  -- wraps and a second one would stay below the capacity.
  abbrev pub is_misjudged : RingBuffer A → ℕ → Bool
  is_misjudged r n =
      not r.full
      && ltb 0 n
      && ltb n r.capacity
      && ((ltb (r.pos + n) r.capacity && leb r.capacity (r.pos + n + n))
          || (ltb r.capacity (r.pos + n) && ltb (r.pos + n + n) (r.capacity + r.capacity)))

  next_full-filled :
      (r : RingBuffer A) (n : ℕ)
      → IsValid r
      → 0 < n
      → n < r.capacity
      → is_misjudged r n ≡ false
      → next_full r n ≡ is_filled r n
  next_full-filled r n v pos lt ok = ground (arith, advance_lem r n v lt)

  write_small :
      (r : RingBuffer A) (chunk : List A)
      → 0 < length chunk
      → length chunk < r.capacity
      → write r chunk ≡ record r {
        buffer = place r chunk;
        pos = advance r (length chunk);
        full = next_full r (length chunk);
      }
  unfolding write
  write_small r chunk h lt = ground arith

  read_full : (r : RingBuffer A) → r.full ≡ true → read r ≡ unrolled r.pos r.buffer
  unfolding read
  read_full r e = rw e

  read_part : (r : RingBuffer A) → r.full ≡ false → read r ≡ take r.pos r.buffer
  unfolding read
  read_part r e = elim (Bool-cases (r.pos == 0)) [
    | inl z ↦ rw (e, (==_iff r.pos 0).0 z)
    | inr more ↦ rw (e, more)
  ]

  -- A write of part of the array, with the flag as it should be.
  write-read_small :
      (r : RingBuffer A) (chunk : List A)
      → IsValid r
      → 0 < length chunk
      → length chunk < r.capacity
      → next_full r (length chunk) ≡ is_filled r (length chunk)
      → read (write r chunk) ≡ last r.capacity (read r ++ chunk)
  write-read_small r chunk v pos lt flag =
      let n = length chunk in
      let before = take r.pos r.buffer in
      let part_size : length (before ++ chunk) ≡ r.pos + n =
        omega (arith, length-append before chunk, length-take r.pos r.buffer) in
      let next : RingBuffer A = record r {
        buffer = place r chunk;
        pos = advance r n;
        full = next_full r n;
      } in
      elim (Bool-cases r.full) [
        | inl full ↦ rw (write_small r chunk pos lt) (
            read_full next (flag ∙ rw full)
            ∙ unrolled-place r chunk v lt
            ∙ ap (λ t. last r.capacity (t ++ chunk)) (sym (read_full r full)))
        | inr part ↦ elim (Bool-cases (leb r.capacity (r.pos + n))) [
          | inl fills ↦ rw (write_small r chunk pos lt) (
              read_full next (flag ∙ rw (part, fills))
              ∙ unrolled-place r chunk v lt
              ∙ ap (last r.capacity) (append_assoc (drop r.pos r.buffer) before chunk)
              ∙ last-append r.capacity (drop r.pos r.buffer) (before ++ chunk)
                  (omega (arith, leb→le _ _ fills))
              ∙ ap (λ t. last r.capacity (t ++ chunk)) (sym (read_part r part)))
          | inr room ↦ rw (write_small r chunk pos lt) (
              read_part next (flag ∙ rw (part, room))
              ∙ ap₂ take ((advance_lem r n v lt).1 (gt→leb _ _ room))
                  (place_fits r chunk v (omega (arith, gt→leb _ _ room)))
              ∙ take-append_left (r.pos + n) (before ++ chunk) (drop (r.pos + n) r.buffer) part_size
              ∙ sym (last_short r.capacity (before ++ chunk) (omega (arith, gt→leb _ _ room)))
              ∙ ap (λ t. last r.capacity (t ++ chunk)) (sym (read_part r part)))
        ]
      ]

  write_large :
      (r : RingBuffer A) (chunk : List A)
      → IsValid r
      → r.capacity ≤ length chunk
      → read (write r chunk) ≡ last r.capacity chunk
  unfolding write read
  write_large r chunk v h =
      let some_samples : (length chunk == 0) ≡ false = ground arith in
      rw (some_samples, le→leb _ _ h) (append-nil (last r.capacity chunk))

  write-read_empty :
      (r : RingBuffer A) (chunk : List A)
      → IsValid r
      → length chunk ≡ 0
      → read (write r chunk) ≡ last r.capacity (read r ++ chunk)
  unfolding write size
  write-read_empty r [] v e =
      sym (
        rw (append-nil (read r)) (last_short r.capacity (read r) (ground (arith, length-read r v))))
  write-read_empty r (x ∷ xs) v e = absurd (omega arith)

  -- On a valid buffer, unless the flag is misjudged, `read` after a write returns the last
  -- `capacity` of the samples that `read` returned before and those of the chunk.
  pub write-read :
      (r : RingBuffer A) (chunk : List A)
      → IsValid r
      → is_misjudged r (length chunk) ≡ false
      → read (write r chunk) ≡ last r.capacity (read r ++ chunk)
  write-read r chunk v judged = elim (Bool-cases (leb r.capacity (length chunk))) [
    | inl large ↦
        write_large r chunk v (leb→le _ _ large)
        ∙ sym (last-append r.capacity (read r) chunk (leb→le _ _ large))
    | inr small ↦ elim (Bool-cases (length chunk == 0)) [
      | inl none_new ↦ write-read_empty r chunk v ((==_iff _ _).0 none_new)
      | inr more ↦
          write-read_small r chunk v (ground arith) (gt→leb _ _ small)
            (next_full-filled r (length chunk) v (ground arith) (gt→leb _ _ small) judged)
    ]
  ]

  -- Whenever the flag is misjudged, the buffer reports another number of samples than the old
  -- ones and the chunk make, cut at the capacity.
  pub write_misjudged :
      (r : RingBuffer A) (chunk : List A)
      → IsValid r
      → is_misjudged r (length chunk) ≡ true
      → size (write r chunk) ≢ min r.capacity (size r + length chunk)
  unfolding size
  write_misjudged r chunk v bad =
      rw (write_small r chunk (ground arith) (ground arith))
        (ground (arith, advance_lem r (length chunk) v))
