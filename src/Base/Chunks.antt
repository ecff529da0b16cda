-- ===== src/Base/Chunks.antt =====
-- `slice::chunks`, and what a loop over the chunks covers.
use mathlib.Core.Path.{◌≡◌, refl, ap, ◌∙◌}
use mathlib.Core.Bool.{false}
use mathlib.Core.List.{List, [], ◌∷◌, ◌++◌}
use Prim.Native.Nat.{ℕ, zero, suc, ◌≤◌}
use native.Mathlib.Omega.{arith}
use usenet_dl.Base.Lists.{
  length, take, drop, take-append-drop, length-take-le, length-drop-le, All, is_empty,
}

module _ {ℓ} {A : Type ℓ} where
  -- Chunks of `size + 1` items, the last one shorter; `fuel` bounds their number.
  unfoldable pub chunks_fuel : ℕ → ℕ → List A → List (List A)
  chunks_fuel zero size xs = []
  chunks_fuel (suc fuel) size [] = []
  chunks_fuel (suc fuel) size (x ∷ xs) = (x ∷ take size xs) ∷ chunks_fuel fuel size (drop size xs)

  -- A chunk holds at least one item, so the list's length is enough fuel. The size is never 0 where
  -- the program calls this (Rust's `chunks(0)` panics); here 0 is read as 1.
  unfoldable pub chunks : ℕ → List A → List (List A)
  unfolding chunks_fuel
  chunks zero xs = chunks_fuel (length xs) 0 xs
  chunks (suc size) xs = chunks_fuel (length xs) size xs

  abbrev pub flatten : List (List A) → List A
  flatten [] = []
  flatten (xs ∷ xss) = xs ++ flatten xss

  flatten-chunks_fuel :
      (fuel size : ℕ) (xs : List A) → length xs ≤ fuel → flatten (chunks_fuel fuel size xs) ≡ xs
  unfolding chunks_fuel
  flatten-chunks_fuel zero size [] h = refl
  flatten-chunks_fuel zero size (x ∷ xs) h = absurd (omega arith)
  flatten-chunks_fuel (suc fuel) size [] h = refl
  flatten-chunks_fuel (suc fuel) size (x ∷ xs) h =
      ap (λ r. x ∷ (take size xs ++ r))
        (flatten-chunks_fuel fuel size (drop size xs) (omega (arith, length-drop-le size xs)))
      ∙ ap (◌∷◌ x) (take-append-drop size xs)

  -- The chunks, one after the other, are the list.
  pub flatten-chunks : (size : ℕ) (xs : List A) → flatten (chunks size xs) ≡ xs
  unfolding chunks
  flatten-chunks zero xs = flatten-chunks_fuel (length xs) 0 xs (omega arith)
  flatten-chunks (suc size) xs = flatten-chunks_fuel (length xs) size xs (omega arith)

  chunks_fuel-le :
      (fuel size : ℕ) (xs : List A) → All (λ c. length c ≤ suc size) (chunks_fuel fuel size xs)
  unfolding chunks_fuel
  chunks_fuel-le zero size xs = tt
  chunks_fuel-le (suc fuel) size [] = tt
  chunks_fuel-le (suc fuel) size (x ∷ xs) =
      (omega (arith, length-take-le size xs), chunks_fuel-le fuel size (drop size xs))

  -- No chunk is longer than the size.
  pub length-chunks-le :
      (size : ℕ) (xs : List A) → All (λ c. length c ≤ suc size) (chunks (suc size) xs)
  unfolding chunks
  length-chunks-le size xs = chunks_fuel-le (length xs) size xs

  chunks_fuel-nonempty :
      (fuel size : ℕ) (xs : List A) → All (λ c. is_empty c ≡ false) (chunks_fuel fuel size xs)
  unfolding chunks_fuel
  chunks_fuel-nonempty zero size xs = tt
  chunks_fuel-nonempty (suc fuel) size [] = tt
  chunks_fuel-nonempty (suc fuel) size (x ∷ xs) =
      (refl, chunks_fuel-nonempty fuel size (drop size xs))

  -- No chunk is empty.
  pub chunks-nonempty : (size : ℕ) (xs : List A) → All (λ c. is_empty c ≡ false) (chunks size xs)
  unfolding chunks
  chunks-nonempty zero xs = chunks_fuel-nonempty (length xs) 0 xs
  chunks-nonempty (suc size) xs = chunks_fuel-nonempty (length xs) size xs
