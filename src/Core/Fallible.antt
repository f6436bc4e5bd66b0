-- ===== src/Core/Fallible.antt =====
-- Results whose error type is a crate's own, and actions on a state that return them: the methods of
-- the crates above the protocol, whose effects stay after an error.
use dnp3_rust_lib.Prelude.{◌≡◌, ◌≢◌, refl, ap, ◌∙◌}
use mathlib.Core.Path.{subst}
use dnp3_rust_lib.Core.Error.{ProtocolError, Result}
use dnp3_rust_lib.Core.Error

-- `stuck` is no Rust value: the fuel of a loop ran out.
pub data Fallible {ℓ} (E : Type 0) (A : Type ℓ) : Type ℓ where
  ok : A → Fallible E A
  err : E → Fallible E A
  stuck : Fallible E A

-- The `?` on a protocol result, where `E` has a variant for its errors.
abbrev pub from_result {ℓ} :
    {E : Type 0} {A : Type ℓ} → (ProtocolError → E) → Result A → Fallible E A
from_result wrap (Error.ok value) = ok value
from_result wrap (Error.err error) = err (wrap error)
from_result wrap Error.stuck = stuck

-- A method: its result, and the state after it.
abbrev pub Action {ℓ} : Type 0 → Type 0 → Type ℓ → Type ℓ
Action S E A = S → Fallible E A × S

infixl 5 ◌>>=◌ ◌>>◌
abbrev pub ◌>>=◌ {ℓ κ} :
    {S E : Type 0} {A : Type ℓ} {B : Type κ} → Action S E A → (A → Action S E B) → Action S E B
◌>>=◌ action next s =
    let (result, s') = action s in
    elim result [ ok value ↦ next value s' | err error ↦ (err error, s') | stuck ↦ (stuck, s') ]

abbrev pub ◌>>◌ {κ} :
    {S E : Type 0} {B : Type κ} → Action S E (Unit {0}) → Action S E B → Action S E B
first >> second = first >>= λ _. second

abbrev pub pure {ℓ} : {S E : Type 0} {A : Type ℓ} → A → Action S E A
pure value s = (ok value, s)

-- A result that leaves the state alone.
abbrev pub lift {ℓ} : {S E : Type 0} {A : Type ℓ} → Fallible E A → Action S E A
lift result s = (result, s)

-- A bind after a successful action goes on with its value, in the state after it.
pub >>=-of_ok {ℓ κ} :
    {S E : Type 0} {A : Type ℓ} {B : Type κ} (action : Action S E A) (next : A → Action S E B)
    (s : S) {value : A} {s' : S}
    → action s ≡ (ok value, s')
    → (action >>= next) s ≡ next value s'
>>=-of_ok action next s e = rw (e, ◌>>=◌, e)

-- A bind after a failed action fails with its error.
pub >>=-of_err {ℓ κ} :
    {S E : Type 0} {A : Type ℓ} {B : Type κ} (action : Action S E A) (next : A → Action S E B)
    (s : S) {error : E} {s' : S}
    → action s ≡ (err error, s')
    → (action >>= next) s ≡ (err error, s')
>>=-of_err action next s e = rw (e, ◌>>=◌, e)

-- What holds of the action's outcome carried on, whichever outcome it is, holds of a bind's.
pub >>=-elim {ℓ κ μ} :
    {S E : Type 0} {A : Type ℓ} {B : Type κ} (action : Action S E A) (next : A → Action S E B)
    (s : S) (Q : Fallible E B × S → Type μ)
    → ((value : A) (s' : S) → action s ≡ (ok value, s') → Q (next value s'))
    → ((error : E) (s' : S) → action s ≡ (err error, s') → Q (err error, s'))
    → ((s' : S) → action s ≡ (stuck, s') → Q (stuck, s'))
    → Q ((action >>= next) s)
>>=-elim {S = S} {E = E} {A = A} {B = B} action next s Q on_ok on_err on_stuck =
    go (action s).0 (action s).1 refl
  where
    go :
        (result : Fallible E A) (s' : S)
        → action s ≡ (result, s')
        → Q (elim result as (λ x. Fallible E B × S) [
          | ok value ↦ next value s'
          | err error ↦ (err error, s')
          | stuck ↦ (stuck, s')
        ])
    go (ok value) s' e = on_ok value s' e
    go (err error) s' e = on_err error s' e
    go stuck s' e = on_stuck s' e

-- An action that keeps an invariant of the state, whatever its outcome.
abbrev pub Preserves {ℓ μ} : {S E : Type 0} {A : Type ℓ} → (S → Type μ) → Action S E A → Type μ
Preserves {S = S} I action = (s : S) → I s → I (action s).1

-- A bind keeps what its parts keep.
pub >>=-Preserves {ℓ κ μ} :
    {S E : Type 0} {A : Type ℓ} {B : Type κ} (I : S → Type μ) (action : Action S E A)
    (next : A → Action S E B)
    → Preserves I action
    → ((value : A) → Preserves I (next value))
    → Preserves I (action >>= next)
>>=-Preserves {S = S} {E = E} {B = B} I action next first later s h =
    >>=-elim action next s (λ (p : Fallible E B × S). I p.1)
      (λ value s' e. later value s' (subst (λ p. I p.1) e (first s h)))
      (λ error s' e. subst (λ p. I p.1) e (first s h)) (λ s' e. subst (λ p. I p.1) e (first s h))

-- `map_err` on a method's result.
abbrev pub map_err {ℓ} : {S E F : Type 0} {A : Type ℓ} → (E → F) → Action S E A → Action S F A
map_err wrap action s =
    let (result, s') = action s in
    elim result [
      | ok value ↦ (ok value, s')
      | err error ↦ (err (wrap error), s')
      | stuck ↦ (stuck, s')
    ]

pub err-ne-ok {ℓ} :
    {E : Type 0} {A : Type ℓ} {error : E} {value : A}
    → ◌≢◌ {A = Fallible E A} (err error) (ok value)
err-ne-ok h = cc

pub stuck-ne-ok {ℓ} :
    {E : Type 0} {A : Type ℓ} {value : A} → ◌≢◌ {A = Fallible E A} stuck (ok value)
stuck-ne-ok h = cc

pub ok-injective {ℓ} :
    {E : Type 0} {A : Type ℓ} {x y : A} → ◌≡◌ {A = Fallible E A} (ok x) (ok y) → x ≡ y
ok-injective h = cc

-- A successful bind had a successful first part.
pub >>=-eq-ok {ℓ κ} :
    {S E : Type 0} {A : Type ℓ} {B : Type κ} (action : Action S E A) (next : A → Action S E B)
    (s : S) {b : B} {s'' : S}
    → (action >>= next) s ≡ (ok b, s'')
    → (a : A) × (s' : S) × (action s ≡ (ok a, s')) × (next a s' ≡ (ok b, s''))
>>=-eq-ok {S = S} {E = E} {A = A} {B = B} action next s {b} {s''} h =
    go (action s).0 (action s).1 refl h
  where
    go :
        (result : Fallible E A) (s' : S)
        → action s ≡ (result, s')
        → (elim result as (λ x. Fallible E B × S) [
          | ok value ↦ next value s'
          | err error ↦ (err error, s')
          | stuck ↦ (stuck, s')
        ])
          ≡ (ok b, s'')
        → (a : A) × (s' : S) × (action s ≡ (ok a, s')) × (next a s' ≡ (ok b, s''))
    go (ok value) s' e k = (value, s', e, k)
    go (err error) s' e k = absurd (err-ne-ok (ap (λ p. p.0) k))
    go stuck s' e k = absurd (stuck-ne-ok (ap (λ p. p.0) k))

-- `map_err` keeps a success, and a success behind it was one before.
pub map_err-of_ok {ℓ} :
    {S E F : Type 0} {A : Type ℓ} (wrap : E → F) (action : Action S E A) (s : S) {value : A}
    {s' : S}
    → action s ≡ (ok value, s')
    → map_err wrap action s ≡ (ok value, s')
map_err-of_ok wrap action s e = rw (e, map_err, e)

pub map_err-eq-ok {ℓ} :
    {S E F : Type 0} {A : Type ℓ} (wrap : E → F) (action : Action S E A) (s : S) {value : A}
    {s' : S}
    → map_err wrap action s ≡ (ok value, s')
    → action s ≡ (ok value, s')
map_err-eq-ok {S = S} {E = E} {F = F} {A = A} wrap action s {value} {s'} h =
    go (action s).0 (action s).1 refl h
  where
    go :
        (result : Fallible E A) (t : S)
        → action s ≡ (result, t)
        → (elim result as (λ x. Fallible F A × S) [
          | ok v ↦ (ok v, t)
          | err error ↦ (err (wrap error), t)
          | stuck ↦ (stuck, t)
        ])
          ≡ (ok value, s')
        → action s ≡ (ok value, s')
    go (ok v) t e k = e ∙ λ i. (ok (ok-injective (ap (λ p. p.0) k) i), (k i).1)
    go (err error) t e k = absurd (err-ne-ok (ap (λ p. p.0) k))
    go stuck t e k = absurd (stuck-ne-ok (ap (λ p. p.0) k))

-- `map_err` leaves the state to the action.
pub map_err-Preserves {ℓ μ} :
    {S E F : Type 0} {A : Type ℓ} (I : S → Type μ) (wrap : E → F) (action : Action S E A)
    → Preserves I action
    → Preserves I (map_err wrap action)
map_err-Preserves {S = S} {E = E} {F = F} {A = A} I wrap action keeps s h =
    go (action s).0 (action s).1 (keeps s h)
  where
    go :
        (result : Fallible E A) (t : S)
        → I t
        → I
            (elim result as (λ x. Fallible F A × S) [
              | ok v ↦ (ok v, t)
              | err error ↦ (err (wrap error), t)
              | stuck ↦ (stuck, t)
            ]).1
    go (ok v) t k = k
    go (err error) t k = k
    go stuck t k = k
