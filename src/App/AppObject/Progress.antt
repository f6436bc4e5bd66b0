-- ===== src/App/AppObject/Progress.antt =====
-- Reading an object always ends, and never moves the cursor back.
use dnp3_rust_lib.Prelude.{ℕ, zero, suc, ◌+◌, ◌-◌, ◌≤◌, ◌<◌, ◌≢◌, arith}
use dnp3_rust_lib.Core.Error.{stuck}
use dnp3_rust_lib.Core.Reader.{Parser, lift}
use dnp3_rust_lib.Core.Reader.Progress.{
  Total, Total-bind, Total-pure, Total-if, Total-err, Total-lift, Total-of_Progress, Total-read_u8,
  total,
}
use dnp3_rust_lib.Core.Timestamp48
use dnp3_rust_lib.App.ObjectHeader.{
  Qualifier, range8, range16, all_objects, count8, indexed32, qualifier_count, ObjectHeader,
}
use dnp3_rust_lib.App.Points.{
  BinaryInput, for_points, skip_event_suffix, range16_count, range8_count,
}
use dnp3_rust_lib.App.Points.Binary.{binary_point, decode_binary_points, decode_binary_like}
use dnp3_rust_lib.App.Points.Analog.{analog_point, decode_analog_points, read_analog_value}
use dnp3_rust_lib.App.Points.Counters.{counter_point, decode_counter_points}
use dnp3_rust_lib.App.Points.Packed.{
  binary_slot, double_bit_slot, packed_loop, decode_binary_packed, decode_double_bit_packed,
  decode_binary_group, decode_double_bit_group, decode_binary_output_packed,
}
use dnp3_rust_lib.App.AppObject.{decode, decode_time, skip_bytes, skip_object_body, class_parse}

Total-for_points {ℓ} :
    {A : Type ℓ} (n i : ℕ) (point : ℕ → Parser A)
    → ((i : ℕ) → Total (point i))
    → Total (for_points n i point)
unfolding for_points
Total-for_points zero i point h = Total-pure
Total-for_points (suc n) i point h =
    Total-bind (h i) λ value. Total-bind (Total-for_points n (i + 1) point h) λ values. Total-pure

Total-skip_event_suffix : (group variation : ℕ) → Total (skip_event_suffix group variation)
unfolding skip_event_suffix
Total-skip_event_suffix group variation = search total depth 20

Total-range16_count : (start stop : ℕ) → Total (lift (range16_count start stop))
unfolding range16_count
Total-range16_count start stop = Total-lift (λ e. ground arith)

qualifier_count-ne-stuck : (q : Qualifier) → qualifier_count q ≢ stuck
unfolding qualifier_count
qualifier_count-ne-stuck (count8 count) e = cc
qualifier_count-ne-stuck _ e = cc

Total-qualifier_count : (q : Qualifier) → Total (lift (qualifier_count q))
Total-qualifier_count q = Total-lift (qualifier_count-ne-stuck q)

Total-binary_point : (group variation index : ℕ) → Total (binary_point group variation index)
unfolding binary_point
Total-binary_point group variation index = search (total, Total-skip_event_suffix) depth 20

Total-analog_point : (group variation index : ℕ) → Total (analog_point group variation index)
unfolding analog_point read_analog_value
Total-analog_point group variation index = search (total, Total-skip_event_suffix) depth 20

Total-counter_point : (group variation index : ℕ) → Total (counter_point group variation index)
unfolding counter_point
Total-counter_point group variation index = search (total, Total-skip_event_suffix) depth 20

ruleset total_points = (
  total, Total-for_points, Total-binary_point, Total-analog_point, Total-counter_point,
  Total-range16_count, Total-qualifier_count,
)

Total-binary_points :
    (group variation : ℕ) (q : Qualifier) → Total (decode_binary_points group variation q)
unfolding decode_binary_points
Total-binary_points group variation (range16 start stop) = search total_points depth 20
Total-binary_points group variation (range8 start stop) = search total_points depth 20
Total-binary_points group variation _ = search total_points depth 20

Total-analog_points :
    (group variation : ℕ) (q : Qualifier) → Total (decode_analog_points group variation q)
unfolding decode_analog_points
Total-analog_points group variation (range16 start stop) = search total_points depth 20
Total-analog_points group variation (range8 start stop) = search total_points depth 20
Total-analog_points group variation _ = search total_points depth 20

Total-counter_points :
    (group variation : ℕ) (q : Qualifier) → Total (decode_counter_points group variation q)
unfolding decode_counter_points
Total-counter_points group variation (range16 start stop) = search total_points depth 20
Total-counter_points group variation (range8 start stop) = search total_points depth 20
Total-counter_points group variation _ = search total_points depth 20

-- Each round of the loop takes a byte's worth of points, so that fuel for each point is enough.
Total-packed_loop :
    (fuel slots remaining byte_offset : ℕ) (point : ℕ → ℕ → ℕ → BinaryInput)
    → 0 < slots
    → remaining ≤ fuel
    → Total (packed_loop fuel slots remaining byte_offset point)
unfolding packed_loop
Total-packed_loop zero slots zero byte_offset point hs h = Total-pure
Total-packed_loop zero slots (suc more) byte_offset point hs h = absurd (omega arith)
Total-packed_loop (suc fuel) slots zero byte_offset point hs h = Total-pure
Total-packed_loop (suc fuel) slots (suc more) byte_offset point hs h =
    Total-bind Total-read_u8 λ byte.
      Total-bind
        (Total-packed_loop fuel slots (suc more - slots) (byte_offset + 1) point hs (omega arith))
        λ values. Total-pure

Total-packed :
    (slots count : ℕ) (point : ℕ → ℕ → ℕ → BinaryInput)
    → 0 < slots
    → Total (packed_loop count slots count 0 point)
Total-packed slots count point hs = Total-packed_loop count slots count 0 point hs (omega arith)

Total-binary_packed : (q : Qualifier) → Total (decode_binary_packed q)
unfolding decode_binary_packed
Total-binary_packed (range16 start stop) =
    Total-bind (Total-range16_count start stop) λ count. Total-packed 8 count _ (omega arith)
Total-binary_packed (range8 start stop) =
    Total-packed 8 (range8_count start stop) (binary_slot 256 start) (omega arith)
Total-binary_packed _ = search Total-binary_points

Total-double_bit_packed : (q : Qualifier) → Total (decode_double_bit_packed q)
unfolding decode_double_bit_packed
Total-double_bit_packed (range16 start stop) =
    Total-bind (Total-range16_count start stop) λ count. Total-packed 4 count _ (omega arith)
Total-double_bit_packed (range8 start stop) =
    Total-packed 4 (range8_count start stop) (double_bit_slot 256 start) (omega arith)
Total-double_bit_packed _ = search Total-binary_points

Total-binary_group :
    (group variation : ℕ) (q : Qualifier) → Total (decode_binary_group group variation q)
unfolding decode_binary_group
Total-binary_group group variation q = search (Total-if, Total-binary_packed, Total-binary_points)

Total-double_bit_group :
    (group variation : ℕ) (q : Qualifier) → Total (decode_double_bit_group group variation q)
unfolding decode_double_bit_group
Total-double_bit_group group variation q =
    search (Total-if, Total-double_bit_packed, Total-binary_points)

Total-binary_like : (q : Qualifier) → Total (decode_binary_like q)
unfolding decode_binary_like
Total-binary_like q = search (total, Total-binary_points)

Total-binary_output_packed : (q : Qualifier) → Total (decode_binary_output_packed q)
unfolding decode_binary_output_packed
Total-binary_output_packed (indexed32 index) = search total
Total-binary_output_packed _ = search Total-binary_like

Total-skip_bytes : (n : ℕ) → Total (skip_bytes n)
unfolding skip_bytes
Total-skip_bytes zero = Total-pure
Total-skip_bytes (suc n) = Total-bind Total-read_u8 λ byte. Total-skip_bytes n

Total-skip_object_body : (q : Qualifier) → Total (skip_object_body q)
unfolding skip_object_body
Total-skip_object_body (range8 start stop) = Total-skip_bytes _
Total-skip_object_body all_objects = Total-pure
Total-skip_object_body _ = Total-err _

Total-timestamp : Total Timestamp48.decode
Total-timestamp = Total-of_Progress 6 Timestamp48.Progress-decode

Total-time : (q : Qualifier) → Total (decode_time q)
unfolding decode_time
Total-time q = search (total, Total-qualifier_count, Total-timestamp) depth 20

class_parse-ne-stuck : (variation : ℕ) → class_parse variation ≢ stuck
unfolding class_parse
class_parse-ne-stuck variation e = ground arith

Total-class_parse : (variation : ℕ) → Total (lift (class_parse variation))
Total-class_parse variation = Total-lift (class_parse-ne-stuck variation)

pub Total-decode : (h : ObjectHeader) → Total (decode h)
unfolding decode
Total-decode h =
    search
      (
        total, Total-skip_object_body, Total-binary_group, Total-double_bit_group,
        Total-binary_output_packed, Total-binary_like, Total-counter_points, Total-analog_points,
        Total-time, Total-class_parse,
      )
      depth 30
