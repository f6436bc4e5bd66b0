-- ===== src/App/AppObject/RoundTrip.antt =====
-- Objects are read back behind their headers.
use dnp3_rust_lib.Prelude.{
  ℕ, ◌<◌, ◌≡◌, ◌≢◌, refl, sym, ap, ◌∙◌, List, [], ◌∷◌, ◌++◌, append-nil, All, map, arith, take,
}
use mathlib.Core.Path.{subst}
use dnp3_rust_lib.Prelude.Bytes.{to_le_bytes}
use dnp3_rust_lib.Core.Error.{Result, ok}
use dnp3_rust_lib.Core.Reader.{Parser, ◌>>=◌, pure, lift}
use dnp3_rust_lib.Core.Reader.Reading.{Parses, Parses-pure, Parses-map, Parses-lift_ok}
use dnp3_rust_lib.Core.Timestamp48
use dnp3_rust_lib.Core.Timestamp48.{Timestamp48}
use dnp3_rust_lib.App.ObjectHeader
use dnp3_rust_lib.App.ObjectHeader.{ObjectHeader, Qualifier, all_objects, count8, qualifier_count}
use dnp3_rust_lib.App.ObjectHeader.RoundTrip as HeaderRoundTrip
use dnp3_rust_lib.App.Points.{
  BinaryOutput, AnalogOutput, binary_input_of, binary_output_of, analog_input_of, analog_output_of,
}
use dnp3_rust_lib.App.Points.Encode.{encode_binary_like, encode_analog_like}
use dnp3_rust_lib.App.Points.Binary.{decode_binary_points, decode_binary_like}
use dnp3_rust_lib.App.Points.Analog.{decode_analog_points}
use dnp3_rust_lib.App.Points.Counters.{decode_counter_points}
use dnp3_rust_lib.App.Points.RoundTrip.{HasRoom, Encoded}
use dnp3_rust_lib.App.Points.Kinds.{
  BinaryFits, AnalogFits, CounterFits, binary-Encoded, analog-Encoded, counter-Encoded,
}
use dnp3_rust_lib.App.AppObject.{
  DataClass, class0, class1, class2, class3, AppObject, binary_inputs, binary_outputs,
  analog_inputs, analog_outputs, counters, double_bit_binary_inputs, time, class_scan,
  integrity_poll, encode, decode, decode_time, class_parse,
}

-- The values fit their Rust types and the object has room for them. A scan of class 0 has the bytes
-- of an integrity poll, and is left out.
abbrev pub IsValid : AppObject → Type 0
IsValid (binary_inputs xs) = All BinaryFits xs × HasRoom (map (λ p. p.index) xs)
IsValid (double_bit_binary_inputs xs) = All BinaryFits xs × HasRoom (map (λ p. p.index) xs)
IsValid (binary_outputs xs) =
    All BinaryFits (map binary_input_of xs) × HasRoom (map (λ p. p.index) (map binary_input_of xs))
IsValid (analog_inputs xs) = All AnalogFits xs × HasRoom (map (λ p. p.index) xs)
IsValid (analog_outputs xs) =
    All AnalogFits (map analog_input_of xs) × HasRoom (map (λ p. p.index) (map analog_input_of xs))
IsValid (counters xs) = All CounterFits xs × HasRoom (map (λ p. p.index) xs)
IsValid (time t) = Timestamp48.IsValid t
IsValid (class_scan c) = c ≢ class0
IsValid integrity_poll = Unit

-- The header and the body that `encode` writes for an object, and that `decode` reads them back. No
-- header begins with a zero, so that it cannot be taken for padding.
pub record Written (object : AppObject) : Type 0 where
  pub header : ObjectHeader
  pub body : List ℕ
  pub written : (out : List ℕ) → encode object out ≡ ok (ObjectHeader.encode header out ++ body)
  pub valid : HeaderRoundTrip.IsValid header.qualifier
  pub read : Parses (decode header) body object
  pub marked : 0 < header.group

-- Points read by `dec` become an object by `make`.
Written-points {ℓ} :
    {A : Type ℓ} (group variation : ℕ) (enc : ℕ → ℕ → List ℕ → Result (List ℕ))
    (dec : Qualifier → Parser (List A)) (make : List A → AppObject) (xs : List A)
    (object : AppObject)
    → 0 < group
    → ((q : Qualifier)
        → decode (ObjectHeader.new group variation q) ≡ (dec q >>= λ values. pure (make values)))
    → ((out : List ℕ) → encode object out ≡ enc group variation out)
    → make xs ≡ object
    → Encoded enc dec xs
    → Written object
Written-points group variation enc dec make xs object marked hdec henc hmake e = record {
  header = ObjectHeader.new group variation e.qualifier;
  body = e.body;
  written = λ out. henc out ∙ e.written group variation out;
  valid = e.valid;
  read = subst (Parses (decode (ObjectHeader.new group variation e.qualifier)) e.body) hmake (
      subst (λ (m : Parser AppObject). Parses m e.body (make xs)) (sym (hdec e.qualifier))
        (Parses-map (dec e.qualifier) make e.body xs e.read));
  marked = marked;
}

map_output_input : (xs : List BinaryOutput) → map binary_output_of (map binary_input_of xs) ≡ xs
map_output_input [] = refl
map_output_input (x ∷ xs) = ap (λ (t : List BinaryOutput). x ∷ t) (map_output_input xs)

map_analog_output_input :
    (xs : List AnalogOutput) → map analog_output_of (map analog_input_of xs) ≡ xs
map_analog_output_input [] = refl
map_analog_output_input (x ∷ xs) =
    ap (λ (t : List AnalogOutput). x ∷ t) (map_analog_output_input xs)

output-Encoded :
    (xs : List BinaryOutput)
    → All BinaryFits (map binary_input_of xs)
    → HasRoom (map (λ p. p.index) (map binary_input_of xs))
    → Encoded (λ g v out. encode_binary_like g v (map binary_input_of xs) out) decode_binary_like xs
unfolding decode_binary_like
output-Encoded xs h room =
    let e = binary-Encoded 1 2 refl (map binary_input_of xs) h room in
    record {
      qualifier = e.qualifier;
      body = e.body;
      written = e.written;
      valid = e.valid;
      read = subst (Parses (decode_binary_like e.qualifier) e.body) (map_output_input xs) (
          Parses-map (decode_binary_points 1 2 e.qualifier) (map binary_output_of) e.body _ e.read);
    }

-- Objects without a body.
Written-bare :
    (variation : ℕ) (object : AppObject)
    → ((out : List ℕ)
        → encode object out
          ≡ ok (ObjectHeader.encode (ObjectHeader.new 60 variation all_objects) out))
    → Parses (decode (ObjectHeader.new 60 variation all_objects)) [] object
    → Written object
Written-bare variation object written read = record {
  header = ObjectHeader.new 60 variation all_objects;
  body = [];
  written = λ out. written out ∙ ap ok (sym (append-nil _));
  valid = tt;
  read = read;
  marked = omega arith;
}

Written-class_scan : (c : DataClass) → c ≢ class0 → Written (class_scan c)
unfolding encode decode
Written-class_scan class0 h = absurd (h refl)
Written-class_scan class1 h =
    Written-bare 2 _ (λ out. refl)
      (Parses-map (lift (class_parse 2)) class_scan [] class1
        (Parses-lift_ok (unfold class_parse in refl)))
Written-class_scan class2 h =
    Written-bare 3 _ (λ out. refl)
      (Parses-map (lift (class_parse 3)) class_scan [] class2
        (Parses-lift_ok (unfold class_parse in refl)))
Written-class_scan class3 h =
    Written-bare 4 _ (λ out. refl)
      (Parses-map (lift (class_parse 4)) class_scan [] class3
        (Parses-lift_ok (unfold class_parse in refl)))

Written-time : (t : Timestamp48) → Timestamp48.IsValid t → Written (time t)
unfolding encode decode decode_time Timestamp48.encode
Written-time t h = record {
  header = ObjectHeader.new 50 1 (count8 1);
  body = take 6 (to_le_bytes 8 t.millis);
  written = λ out. refl;
  valid = omega arith;
  read =
      Parses-map Timestamp48.decode time (take 6 (to_le_bytes 8 t.millis)) t
        (Timestamp48.Parses-decode t h);
  marked = omega arith;
}

pub Written-object : (object : AppObject) → IsValid object → Written object
unfolding encode decode
Written-object (binary_inputs xs) (h, room) =
    Written-points 1 2 (λ g v out. encode_binary_like g v xs out) (decode_binary_points 1 2)
      binary_inputs xs _ (omega arith) (λ q. refl) (λ out. refl) refl
      (binary-Encoded 1 2 refl xs h room)
Written-object (double_bit_binary_inputs xs) (h, room) =
    Written-points 3 2 (λ g v out. encode_binary_like g v xs out) (decode_binary_points 3 2)
      double_bit_binary_inputs xs _ (omega arith) (λ q. refl) (λ out. refl) refl
      (binary-Encoded 3 2 refl xs h room)
Written-object (binary_outputs xs) (h, room) =
    Written-points 10 2 (λ g v out. encode_binary_like g v (map binary_input_of xs) out)
      decode_binary_like binary_outputs xs _ (omega arith) (λ q. refl) (λ out. refl) refl
      (output-Encoded xs h room)
Written-object (analog_inputs xs) (h, room) =
    Written-points 30 1 (λ g v out. encode_analog_like g v xs out) (decode_analog_points 30 1)
      analog_inputs xs _ (omega arith) (λ q. refl) (λ out. refl) refl
      (analog-Encoded 30 1 refl refl xs h room)
Written-object (analog_outputs xs) (h, room) =
    Written-points 40 1 (λ g v out. encode_analog_like g v (map analog_input_of xs) out)
      (decode_analog_points 40 1) (λ points. analog_outputs (map analog_output_of points))
      (map analog_input_of xs) _ (omega arith) (λ q. refl) (λ out. refl)
      (ap analog_outputs (map_analog_output_input xs))
      (analog-Encoded 40 1 refl refl (map analog_input_of xs) h room)
Written-object (counters xs) (h, room) =
    Written-points 20 1 _ (decode_counter_points 20 1) counters xs _ (omega arith) (λ q. refl)
      (λ out. refl) refl (counter-Encoded 20 1 refl xs h room)
Written-object (time t) h = Written-time t h
Written-object (class_scan c) h = Written-class_scan c h
Written-object integrity_poll h = Written-bare 1 _ (λ out. refl) (Parses-pure integrity_poll)
