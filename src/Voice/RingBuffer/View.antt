-- ===== src/Voice/RingBuffer/View.antt =====
-- The invariant of the buffer, and what `read` returns.
use hyprland_agent.Prelude.{
  length-last, ℕ, ◌+◌, ◌-◌, ◌≤◌, ◌<◌, ◌≡◌, refl, List, ◌++◌, length, take, drop, length-append,
  length-take, length-drop, leb, leb→le, gt→leb, arith, Bool-cases, inl, inr,
}
use hyprland_agent.Voice.RingBuffer.{RingBuffer, assign, place, advance, write, read, size}

pub record IsValid {ℓ} {A : Type ℓ} (r : RingBuffer A) : Type ℓ where
  pub positive : 0 < r.capacity
  pub sized : length r.buffer ≡ r.capacity
  pub within : r.pos < r.capacity

module _ {ℓ} {A : Type ℓ} where
  pub length-assign :
      (a : List A) (start stop : ℕ) (chunk : List A)
      → start + length chunk ≡ stop
      → stop ≤ length a
      → length (assign a start stop chunk) ≡ length a
  length-assign a start stop chunk h le = omega (
    arith,
    length-append (take start a) (chunk ++ drop stop a),
    length-append chunk (drop stop a),
    length-take start a,
    length-drop stop a,
  )

  pub length-place :
      (r : RingBuffer A) (chunk : List A)
      → IsValid r
      → length chunk < r.capacity
      → length (place r chunk) ≡ r.capacity
  unfolding place
  length-place r chunk v lt =
      let n = length chunk in
      let space = r.capacity - r.pos in
      elim (Bool-cases (leb n space)) [
        | inl fits ↦ rw fits (
            omega (arith, leb→le n space fits, length-assign r.buffer r.pos (r.pos + n) chunk refl))
        | inr wraps ↦ rw wraps (
            omega (
              arith,
              gt→leb n space wraps,
              length-take space chunk,
              length-drop space chunk,
              length-assign r.buffer r.pos r.capacity (take space chunk),
              length-assign (assign r.buffer r.pos r.capacity (take space chunk)) 0 (n - space)
                  (drop space chunk),
            ))
      ]

  -- The position moves on by the length of the chunk, and wraps at most once.
  pub advance_lem :
      (r : RingBuffer A) (n : ℕ)
      → IsValid r
      → n < r.capacity
      → (advance r n < r.capacity)
        × (r.pos + n < r.capacity → advance r n ≡ r.pos + n)
        × (r.capacity ≤ r.pos + n → advance r n + r.capacity ≡ r.pos + n)
  advance_lem r n v lt = (grind arith, λ h. grind arith, λ h. grind arith)

  -- Every write keeps the array at its capacity and the position inside it.
  pub write-IsValid : (r : RingBuffer A) (chunk : List A) → IsValid r → IsValid (write r chunk)
  unfolding write
  write-IsValid r chunk v =
      ground (
        arith,
        length-place r chunk v,
        length-last r.capacity chunk,
        advance_lem r (length chunk) v,
      )

  pub length-read : (r : RingBuffer A) → IsValid r → length (read r) ≡ size r
  unfolding read size
  length-read r v = ground (
    arith,
    length-append (drop r.pos r.buffer) (take r.pos r.buffer),
    length-take r.pos r.buffer,
    length-drop r.pos r.buffer,
  )
