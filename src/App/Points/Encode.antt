-- ===== src/App/Points/Encode.antt =====
-- `encode_binary_like`, `encode_analog_like` and `encode_counter_like`.
use dnp3_rust_lib.Prelude.{ℕ, none, some, List, [], ◌∷◌, ◌++◌, map, length}
use dnp3_rust_lib.Prelude.Bytes.{to_le_bytes}
use dnp3_rust_lib.Core.Error.{Result, ok, ◌>>=◌}
use dnp3_rust_lib.App.ObjectHeader
use dnp3_rust_lib.App.ObjectHeader.{range16, count_and_prefix16}
use dnp3_rust_lib.App.Points.{
  BinaryInput, AnalogInput, Counter, checked_count, contiguous_u16_range,
}

-- The bodies of a range and of a list with index prefixes, one point after the other.
abbrev pub bodies {ℓ} : {A : Type ℓ} → (A → List ℕ) → List A → List ℕ
bodies f [] = []
bodies f (x ∷ xs) = f x ++ bodies f xs

abbrev pub binary_body : BinaryInput → List ℕ
binary_body p = p.flags ∷ []

abbrev pub binary_prefixed : BinaryInput → List ℕ
binary_prefixed p = to_le_bytes 2 p.index ++ binary_body p

abbrev pub analog_body : AnalogInput → List ℕ
analog_body p = p.flags ∷ to_le_bytes 4 p.value

abbrev pub analog_prefixed : AnalogInput → List ℕ
analog_prefixed p = to_le_bytes 2 p.index ++ analog_body p

abbrev pub counter_body : Counter → List ℕ
counter_body p = p.flags ∷ to_le_bytes 4 p.value

abbrev pub counter_prefixed : Counter → List ℕ
counter_prefixed p = to_le_bytes 2 p.index ++ counter_body p

-- The two branches of each encoder: `body` writes a point of a range, `prefixed` one with its index.
unfoldable pub encode_like {ℓ} :
    {A : Type ℓ} → (A → ℕ) → (A → List ℕ) → (A → List ℕ) → ℕ → ℕ → List A → List ℕ → Result (List ℕ)
unfolding checked_count
encode_like index_of body prefixed group variation points out =
    elim (contiguous_u16_range (map index_of points)) [
      | some (start, stop) ↦ ok (
          ObjectHeader.encode (ObjectHeader.new group variation (range16 start stop)) out
          ++ bodies body points)
      | none ↦ do
        count ← checked_count (length points)
        ok (
            ObjectHeader.encode (ObjectHeader.new group variation (count_and_prefix16 count)) out
            ++ bodies prefixed points)
    ]

unfoldable pub encode_binary_like : ℕ → ℕ → List BinaryInput → List ℕ → Result (List ℕ)
unfolding encode_like
encode_binary_like = encode_like (λ p. p.index) binary_body binary_prefixed

unfoldable pub encode_analog_like : ℕ → ℕ → List AnalogInput → List ℕ → Result (List ℕ)
unfolding encode_like
encode_analog_like = encode_like (λ p. p.index) analog_body analog_prefixed

unfoldable pub encode_counter_like : List Counter → List ℕ → Result (List ℕ)
unfolding encode_like
encode_counter_like = encode_like (λ p. p.index) counter_body counter_prefixed 20 1
