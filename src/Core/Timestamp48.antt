-- ===== src/Core/Timestamp48.antt =====
-- `Timestamp48` of crates/dnp3-core/src/lib.rs: milliseconds in 48 bits.
use dnp3_rust_lib.Prelude.{
  ℕ, ◌%◌, ◌^◌, ◌≤◌, ◌≡◌, List, [], ◌∷◌, ◌++◌, bit_and, leb, if◌then◌else◌, take, arith,
}
use dnp3_rust_lib.Prelude.Bytes.{to_le_bytes, from_le_bytes, length-to_le_bytes}
use mathlib.Core.Path.{subst}
use dnp3_rust_lib.Core.Error.{Result, ok, err, invalid_length}
use dnp3_rust_lib.Core.Reader.{Parser, ◌>>=◌, pure, read_exact}
use dnp3_rust_lib.Core.Reader.Reading.{Parses, Parses-map, Parses-read_exact}
use dnp3_rust_lib.Core.Reader.Progress.{Progress, Progress-map, Progress-read_exact}

pub record Timestamp48 : Type 0 where
  pub millis : ℕ

abbrev pub max_value : ℕ
max_value = 0x0000_ffff_ffff_ffff

abbrev pub IsValid : Timestamp48 → Type 0
IsValid t = t.millis ≤ max_value

unfoldable pub from_millis : ℕ → Result Timestamp48
from_millis value =
    if leb value max_value
    then ok (record { millis = value })
    else err (invalid_length max_value value)

-- The clock's milliseconds since the epoch are the argument, 0 for a clock that stands before it.
unfoldable pub now : ℕ → Timestamp48
now elapsed = record { millis = bit_and (elapsed % 2 ^ 64) max_value }

-- The first six of the eight bytes.
unfoldable pub encode : Timestamp48 → List ℕ → List ℕ
encode t out = out ++ take 6 (to_le_bytes 8 t.millis)

unfoldable pub decode : Parser Timestamp48
unfolding read_exact
decode = do bytes ← read_exact 6; pure (record { millis = from_le_bytes (bytes ++ 0 ∷ 0 ∷ []) })

pub Parses-decode :
    (t : Timestamp48) → IsValid t → Parses decode (take 6 (to_le_bytes 8 t.millis)) t
unfolding decode
Parses-decode t h =
    subst (Parses decode (to_le_bytes 6 t.millis)) (λ i. record { millis = same i })
      (Parses-map (read_exact 6) (λ bytes. record { millis = from_le_bytes (bytes ++ 0 ∷ 0 ∷ []) })
        (to_le_bytes 6 t.millis) (to_le_bytes 6 t.millis)
        (Parses-read_exact 6 (to_le_bytes 6 t.millis) (length-to_le_bytes 6 t.millis)))
  where
    same : from_le_bytes (to_le_bytes 6 t.millis ++ 0 ∷ 0 ∷ []) ≡ t.millis
    same = omega arith

pub Progress-decode : Progress 6 decode
unfolding decode
Progress-decode = Progress-map 6 (read_exact 6) _ (Progress-read_exact 6)
