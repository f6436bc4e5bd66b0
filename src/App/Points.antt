-- ===== src/App/Points.antt =====
-- The point types of crates/dnp3-app/src/lib.rs and what its encoders and decoders share. A signed
-- 32-bit value is its bit pattern, a number below 2 ^ 32.
pub mod Encode
pub mod Loops
pub mod RoundTrip
pub mod Kinds
pub mod Wrapped
pub mod Packed
pub mod Binary
pub mod Analog
pub mod Counters
use dnp3_rust_lib.Prelude.{
  ℕ, zero, suc, ◌+◌, ◌-◌, ◌*◌, ◌/◌, ◌%◌, ◌^◌, Bool, true, false, ◌&&◌, ◌||◌, bit_and, Option, none,
  some, List, [], ◌∷◌, ltb, leb, ◌==◌, ◌!=◌, if◌then◌else◌,
}
use dnp3_rust_lib.Core.Error.{Result, ok, err, invalid_length}
use dnp3_rust_lib.Core.Reader.{Parser, ◌>>=◌, pure, read_exact, read_u8}
use dnp3_rust_lib.App.ObjectHeader.{one_of}

pub record BinaryInput : Type 0 where
  pub index : ℕ
  pub flags : ℕ

pub record BinaryOutput : Type 0 where
  pub index : ℕ
  pub flags : ℕ

pub record AnalogInput : Type 0 where
  pub index : ℕ
  pub flags : ℕ
  pub value : ℕ

pub record AnalogOutput : Type 0 where
  pub index : ℕ
  pub flags : ℕ
  pub value : ℕ

pub record Counter : Type 0 where
  pub index : ℕ
  pub flags : ℕ
  pub value : ℕ

-- The four `From` implementations.
abbrev pub binary_output_of : BinaryInput → BinaryOutput
binary_output_of p = record { index = p.index; flags = p.flags }

abbrev pub binary_input_of : BinaryOutput → BinaryInput
binary_input_of p = record { index = p.index; flags = p.flags }

abbrev pub analog_output_of : AnalogInput → AnalogOutput
analog_output_of p = record { index = p.index; flags = p.flags; value = p.value }

abbrev pub analog_input_of : AnalogOutput → AnalogInput
analog_input_of p = record { index = p.index; flags = p.flags; value = p.value }

unfoldable pub checked_count : ℕ → Result ℕ
checked_count count = if leb count 255 then ok count else err (invalid_length 255 count)

unfoldable pub range16_count : ℕ → ℕ → Result ℕ
range16_count start stop =
    if ltb stop start then err (invalid_length start stop) else ok (stop - start + 1)

-- `usize::from(stop.saturating_sub(start)) + 1`
unfoldable pub range8_count : ℕ → ℕ → ℕ
range8_count start stop = stop - start + 1

-- The `for` of `contiguous_u16_range`, from an offset on.
unfoldable pub is_run : ℕ → ℕ → List ℕ → Bool
is_run start offset [] = true
is_run start offset (index ∷ rest) =
    index == (start + offset % 2 ^ 16) % 2 ^ 16 && is_run start (offset + 1) rest

abbrev pub last_or : ℕ → List ℕ → ℕ
last_or d [] = d
last_or d (x ∷ xs) = last_or x xs

unfoldable pub contiguous_u16_range : List ℕ → Option (ℕ × ℕ)
unfolding is_run
contiguous_u16_range [] = none
contiguous_u16_range (start ∷ rest) =
    if is_run start 0 (start ∷ rest) then some (start, last_or start rest) else none

-- `u16::try_from(index).unwrap_or(u16::MAX)`
unfoldable pub u16_or_max : ℕ → ℕ
u16_or_max index = if leb index 0xffff then index else 0xffff

unfoldable pub is_event_group : ℕ → Bool
is_event_group group = one_of group (2 ∷ 4 ∷ 22 ∷ 32 ∷ 42 ∷ [])

unfoldable pub event_suffix_bytes : ℕ → ℕ → ℕ
unfolding is_event_group
event_suffix_bytes group variation =
    if is_event_group group
    then (if variation == 1 then 0 else if variation == 2 || variation == 3 then 6 else 0)
    else 0

unfoldable pub skip_event_suffix : ℕ → ℕ → Parser (Unit {0})
unfolding event_suffix_bytes
skip_event_suffix group variation =
    if event_suffix_bytes group variation != 0
    then (read_exact (event_suffix_bytes group variation) >>= λ bytes. pure tt)
    else pure tt

-- `for i in start..start + n { values.push(point i) }`
unfoldable pub for_points {ℓ} : {A : Type ℓ} → ℕ → ℕ → (ℕ → Parser A) → Parser (List A)
for_points zero i point = pure []
for_points (suc n) i point = do
  value ← point i
  values ← for_points n (i + 1) point
  pure (value ∷ values)
