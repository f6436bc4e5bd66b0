-- ===== src/Core/Reader/Progress.antt =====
-- Progress of the parsers: `Progress k m` says that `m` never gets stuck, and that a successful
-- read passes at least `k` bytes.
use dnp3_rust_lib.Prelude.{
  ℕ, Bool, true, false, if◌then◌else◌, ◌+◌, ◌≤◌, ◌≢◌, refl, inl, inr, arith, ltb→le, Bool-cases,
  ltb,
}
use dnp3_rust_lib.Core.Error.{ProtocolError, Result, ok, err, stuck}
use dnp3_rust_lib.Core.Reader.{
  Reader, Parser, ◌>>=◌, pure, lift, remaining, read_exact, read_u8, read_u16_le, read_u32_le,
  read_i16_le, read_i32_le,
}

abbrev pub Passes {ℓ} : {A : Type ℓ} → ℕ → Reader → Result (A × Reader) → Type 0
Passes k r (ok (a, r')) = remaining r' + k ≤ remaining r
Passes k r (err e) = Unit
Passes k r stuck = ⊥

abbrev pub Progress {ℓ} : {A : Type ℓ} → ℕ → Parser A → Type 0
Progress k m = (r : Reader) → Passes k r (m r)

Passes-ne-stuck {ℓ} :
    {A : Type ℓ} (k : ℕ) (r : Reader) (x : Result (A × Reader)) → Passes k r x → x ≢ stuck
Passes-ne-stuck k r (ok p) h e = cc
Passes-ne-stuck k r (err x) h e = cc
Passes-ne-stuck k r stuck h e = h

-- Such a parser returns a value or an error.
pub Progress-ne-stuck {ℓ} :
    {A : Type ℓ} (k : ℕ) (m : Parser A) → Progress k m → (r : Reader) → m r ≢ stuck
Progress-ne-stuck k m p r = Passes-ne-stuck k r (m r) (p r)

pub Progress-pure {ℓ} : {A : Type ℓ} (a : A) → Progress 0 (pure a)
Progress-pure a r = omega arith

pub Progress-lift {ℓ} : {A : Type ℓ} (x : Result A) → x ≢ stuck → Progress 0 (lift x)
Progress-lift (ok a) h r = omega arith
Progress-lift (err e) h r = tt
Progress-lift stuck h r = absurd (h refl)

Passes-le {ℓ} :
    {A : Type ℓ} (j k : ℕ) (r r' : Reader) (x : Result (A × Reader))
    → remaining r' + j ≤ remaining r
    → Passes k r' x
    → Passes (j + k) r x
Passes-le j k r r' (ok (a, r'')) h p = omega arith
Passes-le j k r r' (err e) h p = tt
Passes-le j k r r' stuck h p = p

Passes-bind {ℓ κ} :
    {A : Type ℓ} {B : Type κ} (j k : ℕ) (m : Parser A) (f : A → Parser B) (r : Reader)
    → Passes j r (m r)
    → ((a : A) → Progress k (f a))
    → Passes (j + k) r ((m >>= f) r)
Passes-bind {A} {B} j k m f r hm hf = go (m r) hm
  where
    go :
        (x : Result (A × Reader))
        → Passes j r x
        → Passes (j + k) r (elim x [ ok (a, r') ↦ f a r' | err e ↦ err e | stuck ↦ stuck ])
    go (ok (a, r')) p = Passes-le j k r r' (f a r') p (hf a r')
    go (err e) p = tt
    go stuck p = p

pub Progress-bind {ℓ κ} :
    {A : Type ℓ} {B : Type κ} (j k : ℕ) (m : Parser A) (f : A → Parser B)
    → Progress j m
    → ((a : A) → Progress k (f a))
    → Progress (j + k) (m >>= f)
Progress-bind j k m f hm hf r = Passes-bind j k m f r (hm r) hf

Passes-weaken {ℓ} :
    {A : Type ℓ} (j k : ℕ) (r : Reader) (x : Result (A × Reader))
    → j ≤ k
    → Passes k r x
    → Passes j r x
Passes-weaken j k r (ok (a, r')) h p = omega arith
Passes-weaken j k r (err e) h p = tt
Passes-weaken j k r stuck h p = p

pub Progress-weaken {ℓ} :
    {A : Type ℓ} (j k : ℕ) (m : Parser A) → j ≤ k → Progress k m → Progress j m
Progress-weaken j k m h p r = Passes-weaken j k r (m r) h (p r)

pub Progress-read_exact : (n : ℕ) → Progress n (read_exact n)
unfolding read_exact
Progress-read_exact n r = elim (Bool-cases (ltb (remaining r) n)) [
  | inl short ↦ rw short tt
  | inr enough ↦ rw enough (unfold remaining in omega (arith, ltb→le _ _ enough))
]

pub Progress-map {ℓ κ} :
    {A : Type ℓ} {B : Type κ} (k : ℕ) (m : Parser A) (f : A → B)
    → Progress k m
    → Progress k (m >>= λ a. pure (f a))
Progress-map k m f p =
    Progress-weaken k (k + 0) (m >>= λ a. pure (f a)) (omega arith)
      (Progress-bind k 0 m (λ a. pure (f a)) p (λ a. Progress-pure (f a)))

pub Progress-read_u8 : Progress 1 read_u8
unfolding read_u8
Progress-read_u8 = Progress-map 1 (read_exact 1) _ (Progress-read_exact 1)

pub Progress-read_u16_le : Progress 2 read_u16_le
unfolding read_u16_le
Progress-read_u16_le = Progress-map 2 (read_exact 2) _ (Progress-read_exact 2)

pub Progress-read_u32_le : Progress 4 read_u32_le
unfolding read_u32_le
Progress-read_u32_le = Progress-map 4 (read_exact 4) _ (Progress-read_exact 4)

pub Progress-read_i16_le : Progress 2 read_i16_le
unfolding read_i16_le
Progress-read_i16_le = Progress-map 2 (read_exact 2) _ (Progress-read_exact 2)

pub Progress-read_i32_le : Progress 4 read_i32_le
unfolding read_i32_le
Progress-read_i32_le = Progress-map 4 (read_exact 4) _ (Progress-read_exact 4)

-- A parser that always ends, and never moves the cursor back.
pub record Total {ℓ} {A : Type ℓ} (m : Parser A) : Type 0 where
  pub passes : (r : Reader) → Passes 0 r (m r)

pub Total-bind {ℓ κ} :
    {A : Type ℓ} {B : Type κ} {m : Parser A} {f : A → Parser B}
    → Total m
    → ((a : A) → Total (f a))
    → Total (m >>= f)
Total-bind {m = m} {f = f} hm hf = record {
  passes = Progress-bind 0 0 m f hm.passes (λ a. (hf a).passes);
}

pub Total-if {ℓ} :
    {A : Type ℓ} (b : Bool) {m n : Parser A} → Total m → Total n → Total (if b then m else n)
Total-if true hm hn = hm
Total-if false hm hn = hn

pub Total-pure {ℓ} : {A : Type ℓ} {a : A} → Total (pure a)
Total-pure {a = a} = record { passes = Progress-pure a }

pub Total-lift {ℓ} : {A : Type ℓ} {x : Result A} → x ≢ stuck → Total (lift x)
Total-lift {x = x} h = record { passes = Progress-lift x h }

pub Total-err {ℓ} : {A : Type ℓ} (e : ProtocolError) → Total (lift {A = A} (err e))
Total-err e = record { passes = λ r. tt }

pub Total-of_Progress {ℓ} : {A : Type ℓ} {m : Parser A} (k : ℕ) → Progress k m → Total m
Total-of_Progress {m = m} k h = record { passes = Progress-weaken 0 k m (omega arith) h }

pub Total-read_exact : (n : ℕ) → Total (read_exact n)
Total-read_exact n = Total-of_Progress n (Progress-read_exact n)

pub Total-read_u8 : Total read_u8
Total-read_u8 = Total-of_Progress 1 Progress-read_u8

pub Total-read_u16_le : Total read_u16_le
Total-read_u16_le = Total-of_Progress 2 Progress-read_u16_le

pub Total-read_u32_le : Total read_u32_le
Total-read_u32_le = Total-of_Progress 4 Progress-read_u32_le

pub Total-read_i16_le : Total read_i16_le
Total-read_i16_le = Total-of_Progress 2 Progress-read_i16_le

pub Total-read_i32_le : Total read_i32_le
Total-read_i32_le = Total-of_Progress 4 Progress-read_i32_le

pub ruleset total = (
  Total-bind, Total-if, Total-pure, Total-err, Total-read_exact, Total-read_u8, Total-read_u16_le,
  Total-read_u32_le, Total-read_i16_le, Total-read_i32_le,
)
