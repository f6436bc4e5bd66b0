-- ===== src/App/Points/Analog.antt =====
-- `read_analog_value` and `decode_analog_points`.
use dnp3_rust_lib.Prelude.{ℕ, ◌+◌, ◌-◌, ◌%◌, ◌^◌, List, [], ◌∷◌, ltb, ◌==◌, if◌then◌else◌}
use dnp3_rust_lib.Core.Reader.{
  Parser, ◌>>=◌, ◌>>◌, pure, lift, read_u8, read_u16_le, read_u32_le, read_i16_le, read_i32_le,
}
use dnp3_rust_lib.App.ObjectHeader.{
  Qualifier, range8, range16, indexed32, count_and_prefix32, qualifier_count,
}
use dnp3_rust_lib.App.Points.{
  AnalogInput, range16_count, range8_count, u16_or_max, skip_event_suffix, for_points,
}

-- `i32::from` on an i16, as bit patterns: the sign bit fills the upper half.
unfoldable pub sign_extend : ℕ → ℕ
sign_extend w = if ltb w (2 ^ 15) then w else w + (2 ^ 32 - 2 ^ 16)

unfoldable pub read_analog_value : ℕ → Parser ℕ
unfolding sign_extend
read_analog_value variation =
    if variation == 2 then (do value ← read_i16_le; pure (sign_extend value)) else read_i32_le

-- One point whose index is known.
unfoldable pub analog_point : ℕ → ℕ → ℕ → Parser AnalogInput
unfolding skip_event_suffix read_analog_value
analog_point group variation index = do
  flags ← read_u8
  value ← read_analog_value variation
  skip_event_suffix group variation
  pure (record { index = index; flags = flags; value = value })

unfoldable pub decode_analog_points : ℕ → ℕ → Qualifier → Parser (List AnalogInput)
unfolding analog_point qualifier_count
decode_analog_points group variation (range16 start stop) = do
  count ← lift (range16_count start stop)
  for_points count 0 λ offset. analog_point group variation ((start + offset % 2 ^ 16) % 2 ^ 16)
decode_analog_points group variation (range8 start stop) =
    for_points (range8_count start stop) 0
      λ offset. analog_point group variation ((start + offset % 256) % 256)
decode_analog_points group variation (indexed32 index) = do
  point ← analog_point group variation (u16_or_max index)
  pure (point ∷ [])
decode_analog_points group variation (count_and_prefix32 count) =
    for_points count 0
      λ _. (do index ← read_u32_le; analog_point group variation (u16_or_max index))
decode_analog_points group variation q = do
  count ← lift (qualifier_count q)
  for_points count 0 λ _. (do index ← read_u16_le; analog_point group variation index)
