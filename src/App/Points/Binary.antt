-- ===== src/App/Points/Binary.antt =====
-- `decode_binary_points` and `decode_binary_like`.
use dnp3_rust_lib.Prelude.{ℕ, ◌+◌, ◌%◌, ◌^◌, List, [], ◌∷◌, map}
use dnp3_rust_lib.Core.Reader.{Parser, ◌>>=◌, ◌>>◌, pure, lift, read_u8, read_u16_le, read_u32_le}
use dnp3_rust_lib.App.ObjectHeader.{
  Qualifier, range8, range16, count8, count16, indexed32, count_and_prefix32, qualifier_count,
}
use dnp3_rust_lib.App.Points.{
  BinaryInput, BinaryOutput, binary_output_of, range16_count, range8_count, u16_or_max,
  skip_event_suffix, for_points,
}

-- One point whose index is known.
unfoldable pub binary_point : ℕ → ℕ → ℕ → Parser BinaryInput
unfolding skip_event_suffix
binary_point group variation index = do
  flags ← read_u8
  skip_event_suffix group variation
  pure (record { index = index; flags = flags })

unfoldable pub decode_binary_points : ℕ → ℕ → Qualifier → Parser (List BinaryInput)
unfolding binary_point qualifier_count
decode_binary_points group variation (range16 start stop) = do
  count ← lift (range16_count start stop)
  for_points count 0 λ offset. binary_point group variation ((start + offset % 2 ^ 16) % 2 ^ 16)
decode_binary_points group variation (range8 start stop) =
    for_points (range8_count start stop) 0
      λ offset. binary_point group variation ((start + offset % 256) % 256)
decode_binary_points group variation (indexed32 index) = do
  point ← binary_point group variation (u16_or_max index)
  pure (point ∷ [])
decode_binary_points group variation (count8 count) =
    for_points count 0 λ index. binary_point group variation (u16_or_max index)
decode_binary_points group variation (count16 count) =
    for_points count 0 λ index. binary_point group variation (u16_or_max index)
decode_binary_points group variation (count_and_prefix32 count) =
    for_points count 0
      λ _. (do index ← read_u32_le; binary_point group variation (u16_or_max index))
decode_binary_points group variation q = do
  count ← lift (qualifier_count q)
  for_points count 0 λ _. (do index ← read_u16_le; binary_point group variation index)

-- `decode_binary_like` at the type of the outputs.
unfoldable pub decode_binary_like : Qualifier → Parser (List BinaryOutput)
unfolding decode_binary_points
decode_binary_like q = do values ← decode_binary_points 1 2 q; pure (map binary_output_of values)
