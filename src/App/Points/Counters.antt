-- ===== src/App/Points/Counters.antt =====
-- `decode_counter_points`.
use dnp3_rust_lib.Prelude.{ℕ, ◌+◌, ◌%◌, ◌^◌, List, [], ◌∷◌}
use dnp3_rust_lib.Core.Reader.{Parser, ◌>>=◌, ◌>>◌, pure, lift, read_u8, read_u16_le, read_u32_le}
use dnp3_rust_lib.App.ObjectHeader.{
  Qualifier, range8, range16, indexed32, count_and_prefix32, qualifier_count,
}
use dnp3_rust_lib.App.Points.{
  Counter, range16_count, range8_count, u16_or_max, skip_event_suffix, for_points,
}

-- One point whose index is known.
unfoldable pub counter_point : ℕ → ℕ → ℕ → Parser Counter
unfolding skip_event_suffix
counter_point group variation index = do
  flags ← read_u8
  value ← read_u32_le
  skip_event_suffix group variation
  pure (record { index = index; flags = flags; value = value })

unfoldable pub decode_counter_points : ℕ → ℕ → Qualifier → Parser (List Counter)
unfolding counter_point qualifier_count
decode_counter_points group variation (range16 start stop) = do
  count ← lift (range16_count start stop)
  for_points count 0 λ offset. counter_point group variation ((start + offset % 2 ^ 16) % 2 ^ 16)
decode_counter_points group variation (range8 start stop) =
    for_points (range8_count start stop) 0
      λ offset. counter_point group variation ((start + offset % 256) % 256)
decode_counter_points group variation (indexed32 index) = do
  point ← counter_point group variation (u16_or_max index)
  pure (point ∷ [])
decode_counter_points group variation (count_and_prefix32 count) =
    for_points count 0
      λ _. (do index ← read_u32_le; counter_point group variation (u16_or_max index))
decode_counter_points group variation q = do
  count ← lift (qualifier_count q)
  for_points count 0 λ _. (do index ← read_u16_le; counter_point group variation index)
