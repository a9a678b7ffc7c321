-- ===== src/Voice/RingBuffer/Tests.antt =====
-- The ring buffer at concrete inputs.
use hyprland_agent.Prelude.{last, ℕ, ◌≡◌, ◌≢◌, refl, false, [], ◌∷◌, ◌++◌, List, min, ◌+◌, arith}
use hyprland_agent.Voice.RingBuffer.{RingBuffer, init, place, write, read, clear, size}
use hyprland_agent.Voice.RingBuffer.View.{IsValid, write-IsValid}
use hyprland_agent.Voice.RingBuffer.Writes.{write-read, write_misjudged}

abbrev chunk : List ℕ
chunk = 4 ∷ 5 ∷ 6 ∷ []

-- Two samples of a capacity of ten.
abbrev two_samples : RingBuffer ℕ
two_samples = record {
  capacity = 10;
  buffer = 1 ∷ 2 ∷ 0 ∷ 0 ∷ 0 ∷ 0 ∷ 0 ∷ 0 ∷ 0 ∷ 0 ∷ [];
  pos = 2;
  full = false;
}

two_samples-IsValid : IsValid two_samples
two_samples-IsValid = omega arith

write_two : write (init 0 10) (1 ∷ 2 ∷ []) ≡ two_samples
unfolding write init place
write_two = refl

-- Six samples in ten places: the flag is set at once, and `read` returns four that nobody wrote.
read_too_early :
    read {A = ℕ} (write (init 0 10) (1 ∷ 2 ∷ 3 ∷ 4 ∷ 5 ∷ 6 ∷ []))
    ≡ 0 ∷ 0 ∷ 0 ∷ 0 ∷ 1 ∷ 2 ∷ 3 ∷ 4 ∷ 5 ∷ 6 ∷ []
unfolding write init place read
read_too_early = refl

cleared : read (clear 0 two_samples) ≡ []
unfolding clear read
cleared = refl

write-IsValid_example : IsValid (write two_samples chunk)
write-IsValid_example = write-IsValid two_samples chunk two_samples-IsValid

write-read_example : read (write two_samples chunk) ≡ last 10 (read two_samples ++ chunk)
write-read_example = write-read two_samples chunk two_samples-IsValid refl

write_misjudged_example :
    size (write two_samples (4 ∷ 5 ∷ 6 ∷ 7 ∷ [])) ≢ min 10 (size two_samples + 4)
write_misjudged_example = write_misjudged two_samples (4 ∷ 5 ∷ 6 ∷ 7 ∷ []) two_samples-IsValid refl
