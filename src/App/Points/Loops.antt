-- ===== src/App/Points/Loops.antt =====
-- Ranges and prefixed lists of points are read back, for every kind of point.
use dnp3_rust_lib.Prelude.{
  ℕ, ◌+◌, ◌%◌, ◌^◌, ◌≤◌, ◌<◌, ◌≡◌, ap, ◌∙◌, true, List, [], ◌∷◌, ◌++◌, map, length, All, arith,
  le→ltb,
}
use mathlib.Core.Path.{subst}
use dnp3_rust_lib.Prelude.Bytes.{to_le_bytes}
use dnp3_rust_lib.Core.Error.{ok}
use dnp3_rust_lib.Core.Reader.{Parser, ◌>>=◌, lift, read_u16_le}
use dnp3_rust_lib.Core.Reader.Reading.{
  Parses, Parses-pure, Parses-bind, Parses-map, Parses-read_u16_le,
}
use dnp3_rust_lib.App.Points.{range16_count, is_run, last_or, for_points}
use dnp3_rust_lib.App.Points.Encode.{bodies}

-- The index that a range gives its point number `offset`.
abbrev pub run_index : ℕ → ℕ → ℕ
run_index start offset = (start + offset % 2 ^ 16) % 2 ^ 16

abbrev pub decode_range {ℓ} : {A : Type ℓ} → (ℕ → Parser A) → ℕ → ℕ → Parser (List A)
decode_range point start stop = do
  count ← lift (range16_count start stop)
  for_points count 0 λ offset. point (run_index start offset)

abbrev pub decode_prefixed {ℓ} : {A : Type ℓ} → (ℕ → Parser A) → ℕ → Parser (List A)
decode_prefixed point count = do
  count' ← lift (ok count)
  for_points count' 0 λ _. (do index ← read_u16_le; point index)

module _ {ℓ} {A : Type ℓ} where
  -- The parsers of a loop read the points of a list in turn.
  pub ReadInTurn : (ℕ → Parser A) → (A → List ℕ) → ℕ → List A → Type ℓ
  ReadInTurn step body i [] = Unit
  ReadInTurn step body i (x ∷ xs) = Parses (step i) (body x) x × ReadInTurn step body (i + 1) xs

  pub Parses-for_points :
      (step : ℕ → Parser A) (body : A → List ℕ) (i : ℕ) (xs : List A)
      → ReadInTurn step body i xs
      → Parses (for_points (length xs) i step) (bodies body xs) xs
  unfolding for_points ReadInTurn
  Parses-for_points step body i [] h = Parses-pure []
  Parses-for_points step body i (x ∷ xs) h =
      Parses-bind (step i) _ (body x) (bodies body xs) x _ h.0 (
        Parses-map (for_points (length xs) (i + 1) step) (λ ys. x ∷ ys) (bodies body xs) xs
          (Parses-for_points step body (i + 1) xs h.1))

-- A point behind its index.
abbrev pub prefixed {ℓ} : {A : Type ℓ} → (A → ℕ) → (A → List ℕ) → A → List ℕ
prefixed index_of body x = to_le_bytes 2 (index_of x) ++ body x

module _ {ℓ} {A : Type ℓ} (index_of : A → ℕ) (body : A → List ℕ) (point : ℕ → Parser A)
    (Fits : A → Type 0) (reads : (x : A) → Fits x → Parses (point (index_of x)) (body x) x)
    (indexed : (x : A) → Fits x → index_of x < 2 ^ 16) where
  pub range-ReadInTurn :
      (start i : ℕ) (xs : List A)
      → All Fits xs
      → is_run start i (map index_of xs) ≡ true
      → ReadInTurn (λ offset. point (run_index start offset)) body i xs
  unfolding is_run ReadInTurn
  range-ReadInTurn start i [] h r = tt
  range-ReadInTurn start i (x ∷ xs) h r =
      let here : index_of x ≡ run_index start i = ground arith in
      (
        subst (λ (k : ℕ). Parses (point k) (body x) x) here (reads x h.0),
        range-ReadInTurn start (i + 1) xs h.1 (ground arith),
      )

  pub prefixed-ReadInTurn :
      (i : ℕ) (xs : List A)
      → All Fits xs
      → ReadInTurn (λ _. read_u16_le >>= point) (prefixed index_of body) i xs
  unfolding ReadInTurn
  prefixed-ReadInTurn i [] h = tt
  prefixed-ReadInTurn i (x ∷ xs) h = (
    Parses-bind read_u16_le point (to_le_bytes 2 (index_of x)) (body x) (index_of x) x
        (Parses-read_u16_le (index_of x) (indexed x h.0)) (reads x h.0),
    prefixed-ReadInTurn (i + 1) xs h.1,
  )

-- The last index of a run.
pub last_or-is_run :
    (start i d x : ℕ) (xs : List ℕ)
    → is_run start i (x ∷ xs) ≡ true
    → last_or d (x ∷ xs) ≡ run_index start (i + length xs)
unfolding is_run
last_or-is_run start i d x [] h = ground arith
last_or-is_run start i d x (y ∷ ys) h =
    last_or-is_run start (i + 1) x y ys (ground arith) ∙ ap (run_index start) (omega arith)

-- A run that does not pass 0xffff has as many points as its header says.
pub range16_count-run :
    (start : ℕ) (rest : List ℕ)
    → start + length (start ∷ rest) ≤ 2 ^ 16
    → is_run start 0 (start ∷ rest) ≡ true
    → range16_count start (last_or start rest) ≡ ok (length (start ∷ rest))
range16_count-run start rest h r = rw last (
    unfold range16_count in
    rw (le→ltb (start + length rest) start (omega arith)) (ap ok (omega arith)))
  where
    last : last_or start rest ≡ start + length rest
    last = last_or-is_run start 0 start start rest r ∙ omega arith
