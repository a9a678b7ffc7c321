-- ===== src/Prelude/Bounded.antt =====
-- Sequences that keep their last elements only, as `deque(maxlen=n)` does.
use Prim.Native.Nat.{ℕ}
use mathlib.Core.Path.{◌≡◌, sym, ap, ◌∙◌}
use mathlib.Core.List.{List, [], ◌∷◌, ◌++◌, append_assoc, append-nil}
use native.Mathlib.Omega.{arith}
use hyprland_agent.Prelude.Slices.{last, last-last_append, last_short}

module _ {ℓ} {A : Type ℓ} where
  -- `d.append(x)` on a deque of at most `n`.
  unfoldable pub append_bounded : ℕ → List A → A → List A
  append_bounded n xs x = last n (xs ++ x ∷ [])

  unfoldable pub append_all : ℕ → List A → List A → List A
  append_all n xs [] = xs
  append_all n xs (y ∷ ys) = append_all n (append_bounded n xs y) ys

  -- After a series of appends to an empty one, the last `n` of the series are there.
  pub append_all-last :
      (n : ℕ) (all ys : List A) → append_all n (last n all) ys ≡ last n (all ++ ys)
  unfolding append_all append_bounded
  append_all-last n all [] = ap (last n) (sym (append-nil all))
  append_all-last n all (y ∷ ys) =
      ap (λ xs. append_all n xs ys) (last-last_append n all (y ∷ []))
      ∙ append_all-last n (all ++ y ∷ []) ys
      ∙ ap (last n) (append_assoc all (y ∷ []) ys)

  pub append_all-nil : (n : ℕ) (ys : List A) → append_all n [] ys ≡ last n ys
  append_all-nil n ys =
      ap (λ xs. append_all n xs ys) (sym (last_short n [] (omega arith))) ∙ append_all-last n [] ys
