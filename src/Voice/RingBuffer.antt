-- ===== src/Voice/RingBuffer.antt =====
-- `RingBuffer` of `src/agent/voice/ring_buffer.py`, over any type of samples. An array is a list of
-- its elements; `silence` is the sample 0.0. The capacity, `int(samplerate * duration)`, is given.
pub mod View
pub mod Order
pub mod Writes
mod Tests
use hyprland_agent.Prelude.{
  last, ℕ, ◌+◌, ◌-◌, ◌%◌, Bool, true, false, not, ◌&&◌, ◌||◌, List, [], ◌++◌, length, take, drop,
  replicate, leb, ◌==◌, if◌then◌else◌,
}

pub record RingBuffer {ℓ} (A : Type ℓ) : Type ℓ where
  pub capacity : ℕ
  pub buffer : List A
  pub pos : ℕ
  pub full : Bool

-- `a[start:stop] = chunk`
abbrev pub assign {ℓ} : {A : Type ℓ} → List A → ℕ → ℕ → List A → List A
assign a start stop chunk = take start a ++ (chunk ++ drop stop a)

module _ {ℓ} {A : Type ℓ} where
  unfoldable pub init : A → ℕ → RingBuffer A
  init silence capacity = record {
    capacity = capacity;
    buffer = replicate capacity silence;
    pos = 0;
    full = false;
  }

  -- The samples put in place, in one piece or in two.
  unfoldable pub place : RingBuffer A → List A → List A
  place r chunk =
      let n = length chunk in
      let space = r.capacity - r.pos in
      if leb n space
      then assign r.buffer r.pos (r.pos + n) chunk
      else assign (assign r.buffer r.pos r.capacity (take space chunk)) 0 (n - space)
          (drop space chunk)

  abbrev pub advance : RingBuffer A → ℕ → ℕ
  advance r n = (r.pos + n) % r.capacity

  -- `if pos == 0 or not full and pos + n >= capacity: full = True`, at the new position.
  abbrev pub next_full : RingBuffer A → ℕ → Bool
  next_full r n =
      if advance r n == 0 || (not r.full && leb r.capacity (advance r n + n)) then true else r.full

  unfoldable pub write : RingBuffer A → List A → RingBuffer A
  write r chunk =
      let n = length chunk in
      if n == 0
      then r
      else if leb r.capacity n
      then record r { buffer = last r.capacity chunk; pos = 0; full = true }
      else record r { buffer = place r chunk; pos = advance r n; full = next_full r n }

  unfoldable pub read : RingBuffer A → List A
  read r =
      if not r.full && (r.pos == 0)
      then []
      else if r.full
      then drop r.pos r.buffer ++ take r.pos r.buffer
      else take r.pos r.buffer

  unfoldable pub clear : A → RingBuffer A → RingBuffer A
  clear silence r = record r { buffer = replicate (length r.buffer) silence; pos = 0; full = false }

  -- `len(ring)`
  unfoldable pub size : RingBuffer A → ℕ
  size r = if r.full then r.capacity else r.pos
