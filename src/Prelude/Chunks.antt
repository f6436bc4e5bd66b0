-- ===== src/Prelude/Chunks.antt =====
-- Rust's `slice::chunks`: pieces of `n` elements from the front, the last one possibly shorter.
use Prim.Native.Nat.{ℕ, zero, suc, ◌≤◌, ◌<◌}
use mathlib.Core.Path.{◌≡◌, refl, ap, ◌∙◌}
use mathlib.Core.List.{List, [], ◌∷◌, ◌++◌}
use native.Mathlib.Omega.{arith}
use dnp3_rust_lib.Prelude.Lists.{length, take, drop, length-drop, take-append-drop}

module _ {ℓ} {A : Type ℓ} where
  -- Each piece takes an element at least, so as many rounds as elements are enough.
  unfoldable pub chunks_fuel : ℕ → ℕ → List A → List (List A)
  chunks_fuel zero n xs = []
  chunks_fuel (suc fuel) n [] = []
  chunks_fuel (suc fuel) n (x ∷ xs) = take n (x ∷ xs) ∷ chunks_fuel fuel n (drop n (x ∷ xs))

  unfoldable pub chunks : ℕ → List A → List (List A)
  unfolding chunks_fuel
  chunks n xs = chunks_fuel (length xs) n xs

  chunks_fuel_enough :
      (f g n : ℕ) (xs : List A)
      → 0 < n
      → length xs ≤ f
      → length xs ≤ g
      → chunks_fuel f n xs ≡ chunks_fuel g n xs
  unfolding chunks_fuel
  chunks_fuel_enough zero zero n xs pos hf hg = refl
  chunks_fuel_enough zero (suc g) n [] pos hf hg = refl
  chunks_fuel_enough zero (suc g) n (x ∷ xs) pos hf hg = absurd (omega arith)
  chunks_fuel_enough (suc f) zero n [] pos hf hg = refl
  chunks_fuel_enough (suc f) zero n (x ∷ xs) pos hf hg = absurd (omega arith)
  chunks_fuel_enough (suc f) (suc g) n [] pos hf hg = refl
  chunks_fuel_enough (suc f) (suc g) n (x ∷ xs) pos hf hg =
      ap (λ (t : List (List A)). take n (x ∷ xs) ∷ t)
        (chunks_fuel_enough f g n (drop n (x ∷ xs)) pos (omega (arith, length-drop n (x ∷ xs)))
          (omega (arith, length-drop n (x ∷ xs))))

  -- The first piece, and the pieces of what is left.
  pub chunks_step :
      (n : ℕ) (xs : List A) → 0 < n → 0 < length xs → chunks n xs ≡ take n xs ∷ chunks n (drop n xs)
  unfolding chunks
  chunks_step n [] pos h = absurd (omega arith)
  chunks_step n (x ∷ xs) pos h =
      ap (λ (t : List (List A)). take n (x ∷ xs) ∷ t)
        (chunks_fuel_enough (length xs) (length (drop n (x ∷ xs))) n (drop n (x ∷ xs)) pos
          (omega (arith, length-drop n (x ∷ xs))) (omega arith))

  abbrev pub concat : List (List A) → List A
  concat [] = []
  concat (xs ∷ xss) = xs ++ concat xss

  concat-chunks_fuel :
      (fuel n : ℕ) (xs : List A) → 0 < n → length xs ≤ fuel → concat (chunks_fuel fuel n xs) ≡ xs
  unfolding chunks_fuel
  concat-chunks_fuel zero n [] pos h = refl
  concat-chunks_fuel zero n (x ∷ xs) pos h = absurd (omega arith)
  concat-chunks_fuel (suc fuel) n [] pos h = refl
  concat-chunks_fuel (suc fuel) n (x ∷ xs) pos h =
      ap (λ (t : List A). take n (x ∷ xs) ++ t)
        (concat-chunks_fuel fuel n (drop n (x ∷ xs)) pos (omega (arith, length-drop n (x ∷ xs))))
      ∙ take-append-drop n (x ∷ xs)

  -- The pieces put together are the whole.
  pub concat-chunks : (n : ℕ) (xs : List A) → 0 < n → concat (chunks n xs) ≡ xs
  unfolding chunks
  concat-chunks n xs pos = concat-chunks_fuel (length xs) n xs pos (omega arith)
