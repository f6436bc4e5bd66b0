-- ===== src/App/AppObject.antt =====
-- `DataClass` and `AppObject` of crates/dnp3-app/src/lib.rs.
pub mod RoundTrip
pub mod Progress
use dnp3_rust_lib.Prelude.{
  ℕ, ◌+◌, ◌-◌, ◌&&◌, ◌||◌, List, [], ◌∷◌, map, leb, ◌==◌, ◌!=◌, if◌then◌else◌, zero, suc,
}
use dnp3_rust_lib.Core.Error.{Result, ok, err, unknown_value, invalid_length}
use dnp3_rust_lib.Core.Reader.{Parser, ◌>>=◌, ◌>>◌, pure, lift, read_u8}
use dnp3_rust_lib.Core.Timestamp48
use dnp3_rust_lib.Core.Timestamp48.{Timestamp48}
use dnp3_rust_lib.App.ObjectHeader
use dnp3_rust_lib.App.ObjectHeader.{
  ObjectHeader, Qualifier, range8, all_objects, count8, qualifier_count,
}
use dnp3_rust_lib.App.Points.{
  BinaryInput, BinaryOutput, AnalogInput, AnalogOutput, Counter, binary_input_of, analog_input_of,
  analog_output_of, range8_count,
}
use dnp3_rust_lib.App.Points.Encode.{encode_binary_like, encode_analog_like, encode_counter_like}
use dnp3_rust_lib.App.Points.Binary.{decode_binary_like}
use dnp3_rust_lib.App.Points.Analog.{decode_analog_points}
use dnp3_rust_lib.App.Points.Counters.{decode_counter_points}
use dnp3_rust_lib.App.Points.Packed.{
  decode_binary_group, decode_double_bit_group, decode_binary_output_packed,
}

pub data DataClass : Type 0 where
  class0 class1 class2 class3 : DataClass

-- `DataClass::variation`
unfoldable pub class_variation : DataClass → ℕ
class_variation class0 = 1
class_variation class1 = 2
class_variation class2 = 3
class_variation class3 = 4

-- `DataClass::parse`
unfoldable pub class_parse : ℕ → Result DataClass
class_parse variation =
    if variation == 1
    then ok class0
    else if variation == 2
    then ok class1
    else if variation == 3
    then ok class2
    else if variation == 4
    then ok class3
    else err (unknown_value "class variation" variation)

pub data AppObject : Type 0 where
  binary_inputs : List BinaryInput → AppObject
  binary_outputs : List BinaryOutput → AppObject
  analog_inputs : List AnalogInput → AppObject
  analog_outputs : List AnalogOutput → AppObject
  counters : List Counter → AppObject
  double_bit_binary_inputs : List BinaryInput → AppObject
  time : Timestamp48 → AppObject
  class_scan : DataClass → AppObject
  integrity_poll : AppObject

unfoldable pub encode : AppObject → List ℕ → Result (List ℕ)
unfolding encode_binary_like encode_analog_like encode_counter_like class_variation
encode (binary_inputs values) out = encode_binary_like 1 2 values out
encode (double_bit_binary_inputs values) out = encode_binary_like 3 2 values out
encode (binary_outputs values) out = encode_binary_like 10 2 (map binary_input_of values) out
encode (analog_inputs values) out = encode_analog_like 30 1 values out
encode (analog_outputs values) out = encode_analog_like 40 1 (map analog_input_of values) out
encode (counters values) out = encode_counter_like values out
encode (time timestamp) out =
    ok (Timestamp48.encode timestamp (ObjectHeader.encode (ObjectHeader.new 50 1 (count8 1)) out))
encode (class_scan c) out =
    ok (ObjectHeader.encode (ObjectHeader.new 60 (class_variation c) all_objects) out)
encode integrity_poll out = ok (ObjectHeader.encode (ObjectHeader.new 60 1 all_objects) out)

-- The `for` of `skip_object_body`.
unfoldable pub skip_bytes : ℕ → Parser (Unit {0})
skip_bytes zero = pure tt
skip_bytes (suc n) = do read_u8 >>= λ byte. skip_bytes n

unfoldable pub skip_object_body : Qualifier → Parser (Unit {0})
unfolding skip_bytes
skip_object_body (range8 start stop) = skip_bytes (range8_count start stop)
skip_object_body all_objects = pure tt
skip_object_body q =
    lift (err (unknown_value "unsupported padding object qualifier" (ObjectHeader.code q)))

-- Group 50: one time.
unfoldable pub decode_time : Qualifier → Parser AppObject
decode_time q = do
  count ← lift (qualifier_count q)
  (if count != 1
      then lift (err (invalid_length 1 count))
      else (do timestamp ← Timestamp48.decode; pure (time timestamp)))

unfoldable pub decode : ObjectHeader → Parser AppObject
unfolding skip_object_body decode_time decode_binary_group decode_double_bit_group
    decode_binary_output_packed decode_binary_like decode_counter_points decode_analog_points
decode h =
    if h.group == 0
    then (do skip_object_body h.qualifier >>= λ skipped. pure (binary_inputs []))
    else if h.group == 1 || h.group == 2
    then (do
      values ← decode_binary_group h.group h.variation h.qualifier
      pure (binary_inputs values))
    else if h.group == 3 || h.group == 4
    then (do
      values ← decode_double_bit_group h.group h.variation h.qualifier
      pure (double_bit_binary_inputs values))
    else if h.group == 10
    then (do
      values ←
          (if h.variation == 1
            then decode_binary_output_packed h.qualifier
            else decode_binary_like h.qualifier)
      pure (binary_outputs values))
    else if leb 20 h.group && leb h.group 22
    then (do values ← decode_counter_points h.group h.variation h.qualifier; pure (counters values))
    else if h.group == 30 || h.group == 32
    then (do
      values ← decode_analog_points h.group h.variation h.qualifier
      pure (analog_inputs values))
    else if h.group == 40 || h.group == 42
    then (do
      points ← decode_analog_points h.group h.variation h.qualifier
      pure (analog_outputs (map analog_output_of points)))
    else if h.group == 50 && h.variation == 1
    then decode_time h.qualifier
    else if h.group == 60 && h.variation == 1
    then pure integrity_poll
    else if h.group == 60
    then (do c ← lift (class_parse h.variation); pure (class_scan c))
    else lift (err (unknown_value "object group" h.group))
