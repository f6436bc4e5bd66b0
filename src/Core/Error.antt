-- ===== src/Core/Error.antt =====
-- `ProtocolError` and `Result` of crates/dnp3-core/src/lib.rs.
use dnp3_rust_lib.Prelude.{ℕ, String, Bool, true, false, ◌≡◌, ◌≢◌, ◌⊎◌, inl, inr, refl}

pub data ProtocolError : Type 0 where
  unexpected_eof : ProtocolError
  -- expected, actual
  invalid_length : ℕ → ℕ → ProtocolError
  invalid_crc : ProtocolError
  invalid_start_bytes : ProtocolError
  -- field, value
  unknown_value : String → ℕ → ProtocolError
  -- expected, actual
  invalid_sequence : ℕ → ℕ → ProtocolError
  invalid_fragment : ProtocolError
  timeout : ProtocolError
  closed : ProtocolError

-- `stuck` is no Rust value: the fuel of a loop ran out.
pub data Result {ℓ} (A : Type ℓ) : Type ℓ where
  ok : A → Result A
  err : ProtocolError → Result A
  stuck : Result A

-- The `?` of Rust.
infixl 5 ◌>>=◌ ◌>>◌
abbrev pub ◌>>=◌ {ℓ κ} : {A : Type ℓ} {B : Type κ} → Result A → (A → Result B) → Result B
ok value >>= next = next value
err error >>= next = err error
stuck >>= next = stuck

abbrev pub ◌>>◌ {κ} : {B : Type κ} → Result (Unit {0}) → Result B → Result B
first >> second = first >>= λ _. second

-- `if !test { return Err(error) }`
abbrev pub guard : Bool → ProtocolError → Result (Unit {0})
guard false error = err error
guard true error = ok tt

-- Splits a computed result and keeps the equation.
pub Result-cases {ℓ} :
    {A : Type ℓ} (r : Result A)
    → ((a : A) × (r ≡ ok a)) ⊎ (((e : ProtocolError) × (r ≡ err e)) ⊎ (r ≡ stuck))
Result-cases (ok a) = inl (a, refl)
Result-cases (err e) = inr (inl (e, refl))
Result-cases stuck = inr (inr refl)

-- A successful bind had a successful first part.
pub >>=-eq-ok {ℓ κ} :
    {A : Type ℓ} {B : Type κ} (first : Result A) (next : A → Result B) {b : B}
    → (first >>= next) ≡ ok b
    → (a : A) × (first ≡ ok a) × (next a ≡ ok b)
>>=-eq-ok (ok value) next e = (value, refl, e)
>>=-eq-ok (err error) next e = cc
>>=-eq-ok stuck next e = cc

pub guard-eq-ok : (b : Bool) (e : ProtocolError) {u : Unit {0}} → guard b e ≡ ok u → b ≡ true
guard-eq-ok true e h = refl
guard-eq-ok false e h = cc

pub ok-ne-stuck {ℓ} : {A : Type ℓ} (a : A) → ok a ≢ stuck
ok-ne-stuck a p = cc

-- A bind ends if its parts do.
pub >>=-ne-stuck {ℓ κ} :
    {A : Type ℓ} {B : Type κ} (m : Result A) (f : A → Result B)
    → m ≢ stuck
    → ((a : A) → m ≡ ok a → f a ≢ stuck)
    → (m >>= f) ≢ stuck
>>=-ne-stuck (ok a) f h k = k a refl
>>=-ne-stuck (err e) f h k = λ p. cc
>>=-ne-stuck stuck f h k = absurd (h refl)

pub guard-ne-stuck : (b : Bool) (e : ProtocolError) → guard b e ≢ stuck
guard-ne-stuck true e p = cc
guard-ne-stuck false e p = cc
