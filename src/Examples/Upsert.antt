-- ===== src/Examples/Upsert.antt =====
-- The lists of points as maps from indices to points.
use dnp3_rust_lib.Prelude.{
  ℕ, ◌≡◌, refl, Bool, true, false, Bool-cases, inl, inr, Option, none, some, List, [], ◌∷◌,
  if◌then◌else◌, ◌==◌, ==→eq, arith,
}
use dnp3_rust_lib.Examples.Points.{PointIndex, upsert}

shadowed {ℓ} :
    {A : Type ℓ} (b : Bool) (x y z : A)
    → (if b then x else z) ≡ (if b then x else if b then y else z)
shadowed true x y z = refl
shadowed false x y z = refl

swapped {ℓ} :
    {A : Type ℓ} (a b : Bool) (x y z : A)
    → (a ≡ true → b ≡ true → ⊥)
    → (if a then x else if b then y else z) ≡ (if b then y else if a then x else z)
swapped true true x y z h = absurd (h refl refl)
swapped true false x y z h = refl
swapped false true x y z h = refl
swapped false false x y z h = refl

differ : (a b n : ℕ) → (a == b) ≡ false → (a == n) ≡ true → (b == n) ≡ true → ⊥
differ a b n h k l = ground arith

module _ {ℓ} {T : Type ℓ} ⦃i : PointIndex T⦄ where
  -- The point of an index: the first one, which is the one that a reader of the list finds.
  abbrev pub find : ℕ → List T → Option T
  find n [] = none
  find n (entry ∷ rest) = if i.index entry == n then some entry else find n rest

  -- A map with one index set.
  abbrev pub update : ℕ → T → (ℕ → Option T) → ℕ → Option T
  update index point old n = if index == n then some point else old n

  -- The list that `upsert` returns is the map with the point set at its index: that index finds the new
  -- point, and every other index finds what it found before.
  pub find-upsert :
      (points : List T) (index : ℕ) (point : T) (n : ℕ)
      → i.index point ≡ index
      → find n (upsert points index point) ≡ update index point (λ m. find m points) n
  unfolding upsert
  find-upsert [] index point n h = rw h refl
  find-upsert (entry ∷ rest) index point n h = elim (Bool-cases (i.index entry == index)) [
    | inl same ↦
        rw (same, h, ==→eq (i.index entry) index same)
          (shadowed (index == n) (some point) (some entry) (find n rest))
    | inr other ↦
        rw (other, find-upsert rest index point n h)
          (swapped (i.index entry == n) (index == n) (some entry) (some point) (find n rest)
            (λ a b. differ (i.index entry) index n other a b))
  ]
