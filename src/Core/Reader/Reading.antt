-- ===== src/Core/Reader/Reading.antt =====
-- What a parser reads: `Parses m bs v` says that wherever the unread bytes begin with `bs`, `m`
-- returns `v` and leaves the bytes after them.
use dnp3_rust_lib.Prelude.{
  ℕ, ◌+◌, ◌-◌, ◌<◌, ◌≤◌, ◌^◌, ◌≡◌, refl, sym, ap, ◌∙◌, List, [], ◌∷◌, ◌++◌, append_assoc, length,
  get_or, drop, length-append, length-drop, take-append, drop-append, drop-drop, le→ltb, arith,
}
use dnp3_rust_lib.Prelude.Bytes.{
  to_le_bytes, from_le_bytes, length-to_le_bytes, from_le_bytes-to_le_bytes,
}
use mathlib.Core.Path.{subst}
use dnp3_rust_lib.Core.Error.{Result, ok}
use dnp3_rust_lib.Core.Reader.{
  Reader, Parser, ◌>>=◌, pure, lift, unread, remaining, read_exact, read_u8, read_u16_le,
  read_u32_le, read_i32_le,
}

abbrev pub Reads {ℓ} : {A : Type ℓ} → Parser A → Reader → A → List ℕ → Type ℓ
Reads m r v rest = (r' : Reader) × (m r ≡ ok (v, r')) × (unread r' ≡ rest)

abbrev pub Parses {ℓ} : {A : Type ℓ} → Parser A → List ℕ → A → Type ℓ
Parses m bs v = (r : Reader) (rest : List ℕ) → unread r ≡ bs ++ rest → Reads m r v rest

-- A value for what was not read.
pub Parses-pure {ℓ} : {A : Type ℓ} (v : A) → Parses (pure v) [] v
Parses-pure v r rest h = (r, refl, h)

-- A result that reads nothing.
pub Parses-lift_ok {ℓ} : {A : Type ℓ} {x : Result A} {v : A} → x ≡ ok v → Parses (lift x) [] v
Parses-lift_ok e r rest h = (r, rw (e, lift), h)

-- A bind after a successful read goes on with its value.
pub >>=-of_ok {ℓ κ} :
    {A : Type ℓ} {B : Type κ} (m : Parser A) (f : A → Parser B) (r : Reader) {a : A} {r' : Reader}
    → m r ≡ ok (a, r')
    → (m >>= f) r ≡ f a r'
>>=-of_ok m f r e = rw (e, ◌>>=◌)

-- Two reads in turn read two strings in turn.
pub Parses-bind {ℓ κ} :
    {A : Type ℓ} {B : Type κ} (m : Parser A) (f : A → Parser B) (bs cs : List ℕ) (a : A) (b : B)
    → Parses m bs a
    → Parses (f a) cs b
    → Parses (m >>= f) (bs ++ cs) b
Parses-bind m f bs cs a b hm hf r rest h =
    let (r1, e1, u1) = hm r (cs ++ rest) (h ∙ append_assoc bs cs rest) in
    let (r2, e2, u2) = hf r1 rest u1 in (r2, >>=-of_ok m f r e1 ∙ e2, u2)

-- The last read, and a value made from it.
pub Parses-map {ℓ κ} :
    {A : Type ℓ} {B : Type κ} (m : Parser A) (f : A → B) (bs : List ℕ) (a : A)
    → Parses m bs a
    → Parses (m >>= λ x. pure (f x)) bs (f a)
Parses-map m f bs a hm r rest h =
    let (r1, e1, u1) = hm r rest h in (r1, >>=-of_ok m (λ x. pure (f x)) r e1, u1)

pub remaining-eq-length : (r : Reader) → remaining r ≡ length (unread r)
unfolding remaining
remaining-eq-length r = sym (length-drop r.cursor r.input)

pub Parses-read_exact : (n : ℕ) (bs : List ℕ) → length bs ≡ n → Parses (read_exact n) bs bs
unfolding read_exact
Parses-read_exact n bs hn r rest h = (record r { cursor = r.cursor + n }, found, left)
  where
    enough : n ≤ length r.input - r.cursor
    enough =
        omega (arith, length-drop r.cursor r.input, ap (length {A = ℕ}) h, length-append bs rest)

    found : read_exact n r ≡ ok (bs, record r { cursor = r.cursor + n })
    found = rw (le→ltb _ _ enough, h, take-append n bs rest hn)

    left : unread (record r { cursor = r.cursor + n }) ≡ rest
    left = sym (drop-drop n r.cursor r.input) ∙ ap (drop n) h ∙ drop-append n bs rest hn

pub Parses-read_u8 : (b : ℕ) → Parses read_u8 (b ∷ []) b
unfolding read_u8
Parses-read_u8 b =
    Parses-map (read_exact 1) (λ bs. get_or bs 0 0) (b ∷ []) (b ∷ [])
      (Parses-read_exact 1 (b ∷ []) refl)

Parses-from_le_bytes :
    (n v : ℕ)
    → v < 256 ^ n
    → Parses (read_exact n >>= λ bs. pure (from_le_bytes bs)) (to_le_bytes n v) v
Parses-from_le_bytes n v h =
    subst (Parses (read_exact n >>= λ bs. pure (from_le_bytes bs)) (to_le_bytes n v))
      (from_le_bytes-to_le_bytes n v h)
      (Parses-map (read_exact n) from_le_bytes (to_le_bytes n v) (to_le_bytes n v)
        (Parses-read_exact n (to_le_bytes n v) (length-to_le_bytes n v)))

pub Parses-read_u16_le : (v : ℕ) → v < 2 ^ 16 → Parses read_u16_le (to_le_bytes 2 v) v
unfolding read_u16_le
Parses-read_u16_le v h = Parses-from_le_bytes 2 v h

pub Parses-read_u32_le : (v : ℕ) → v < 2 ^ 32 → Parses read_u32_le (to_le_bytes 4 v) v
unfolding read_u32_le
Parses-read_u32_le v h = Parses-from_le_bytes 4 v h

pub Parses-read_i32_le : (v : ℕ) → v < 2 ^ 32 → Parses read_i32_le (to_le_bytes 4 v) v
unfolding read_i32_le
Parses-read_i32_le v h = Parses-from_le_bytes 4 v h
