-- ===== src/Core/Reader.antt =====
-- `Reader` of crates/dnp3-core/src/lib.rs: a byte slice and a cursor. A reading function takes the
-- reader and returns the value with the reader after it; after an error the callers drop the reader.
pub mod Reading
pub mod Progress
use dnp3_rust_lib.Prelude.{
  ℕ, zero, suc, ◌+◌, ◌-◌, Bool, true, false, ◌&&◌, List, [], ◌∷◌, length, take, drop, get_or, ltb,
  leb, ◌==◌, if◌then◌else◌,
}
use dnp3_rust_lib.Prelude.Bytes.{from_le_bytes, bytes_eq}
use dnp3_rust_lib.Core.Error.{Result, ok, err, stuck, unexpected_eof}

pub record Reader : Type 0 where
  pub input : List ℕ
  pub cursor : ℕ

abbrev pub Parser {ℓ} : Type ℓ → Type ℓ
Parser A = Reader → Result (A × Reader)

infixl 5 ◌>>=◌ ◌>>◌
abbrev pub ◌>>=◌ {ℓ κ} : {A : Type ℓ} {B : Type κ} → Parser A → (A → Parser B) → Parser B
◌>>=◌ m f r = elim (m r) [ ok (a, r') ↦ f a r' | err e ↦ err e | stuck ↦ stuck ]

abbrev pub ◌>>◌ {ℓ} : {B : Type ℓ} → Parser (Unit {0}) → Parser B → Parser B
m >> k = m >>= λ _. k

abbrev pub pure {ℓ} : {A : Type ℓ} → A → Parser A
pure a r = ok (a, r)

-- A result that reads nothing.
abbrev pub lift {ℓ} : {A : Type ℓ} → Result A → Parser A
lift x r = elim x [ ok a ↦ ok (a, r) | err e ↦ err e | stuck ↦ stuck ]

-- `Reader::new`
unfoldable pub new : List ℕ → Reader
new input = record { input = input; cursor = 0 }

-- The bytes behind the cursor.
abbrev pub unread : Reader → List ℕ
unread r = drop r.cursor r.input

-- `saturating_sub`
unfoldable pub remaining : Reader → ℕ
remaining r = length r.input - r.cursor

unfoldable pub is_empty : Reader → Bool
unfolding remaining
is_empty r = remaining r == 0

-- The `while` of `skip_padding_zeros`; each round passes four bytes.
unfoldable pub skip_padding_loop : ℕ → Parser (Unit {0})
unfolding remaining
skip_padding_loop zero r = stuck
skip_padding_loop (suc fuel) r =
    elim (leb 4 (remaining r) && bytes_eq (take 4 (unread r)) (0 ∷ 0 ∷ 0 ∷ 0 ∷ [])) [
      | true ↦ skip_padding_loop fuel (record r { cursor = r.cursor + 4 })
      | false ↦ ok (tt, r)
    ]

-- Each round passes bytes that were unread, and the last one passes none.
unfoldable pub skip_padding_zeros : Parser (Unit {0})
unfolding skip_padding_loop
skip_padding_zeros r = skip_padding_loop (suc (remaining r)) r

unfoldable pub read_exact : ℕ → Parser (List ℕ)
unfolding remaining
read_exact len r =
    if ltb (remaining r) len
    then err unexpected_eof
    else ok (take len (unread r), record r { cursor = r.cursor + len })

unfoldable pub read_u8 : Parser ℕ
unfolding read_exact
read_u8 = do bytes ← read_exact 1; pure (get_or bytes 0 0)

unfoldable pub read_u16_le : Parser ℕ
unfolding read_exact
read_u16_le = do bytes ← read_exact 2; pure (from_le_bytes bytes)

unfoldable pub read_u32_le : Parser ℕ
unfolding read_exact
read_u32_le = do bytes ← read_exact 4; pure (from_le_bytes bytes)

-- A signed word is its bit pattern, so these read what the unsigned ones read.
unfoldable pub read_i16_le : Parser ℕ
unfolding read_exact
read_i16_le = do bytes ← read_exact 2; pure (from_le_bytes bytes)

unfoldable pub read_i32_le : Parser ℕ
unfolding read_exact
read_i32_le = do bytes ← read_exact 4; pure (from_le_bytes bytes)
