-- ===== src/App/Points/Kinds.antt =====
-- The three kinds of points are read back in the groups that carry no event time.
use dnp3_rust_lib.Prelude.{ℕ, ◌^◌, ◌<◌, ◌≡◌, refl, sym, List, [], ◌∷◌, ◌++◌, All, map}
use mathlib.Core.Path.{subst}
use dnp3_rust_lib.Prelude.Bytes.{to_le_bytes}
use dnp3_rust_lib.Core.Reader.{Parser, pure, read_u8, read_u32_le, read_i32_le}
use dnp3_rust_lib.Core.Reader.Reading.{
  Parses, Parses-pure, Parses-bind, Parses-read_u8, Parses-read_u32_le, Parses-read_i32_le,
}
use dnp3_rust_lib.App.Points.{BinaryInput, AnalogInput, Counter, skip_event_suffix}
use dnp3_rust_lib.App.Points.Encode.{
  binary_body, analog_body, counter_body, encode_binary_like, encode_analog_like, encode_like,
}
use dnp3_rust_lib.App.Points.Binary.{binary_point, decode_binary_points}
use dnp3_rust_lib.App.Points.Analog.{analog_point, read_analog_value, decode_analog_points}
use dnp3_rust_lib.App.Points.Counters.{counter_point, decode_counter_points}
use dnp3_rust_lib.App.Points.RoundTrip.{HasRoom, Encoded, encode_like-Encoded}

-- The fields fit their Rust types; a flags byte is not cut anywhere.
abbrev pub BinaryFits : BinaryInput → Type 0
BinaryFits p = p.index < 2 ^ 16

abbrev pub AnalogFits : AnalogInput → Type 0
AnalogFits p = (p.index < 2 ^ 16) × (p.value < 2 ^ 32)

abbrev pub CounterFits : Counter → Type 0
CounterFits p = (p.index < 2 ^ 16) × (p.value < 2 ^ 32)

module _ (group variation : ℕ) (no_suffix : skip_event_suffix group variation ≡ pure tt) where
  Parses-suffix : Parses (skip_event_suffix group variation) [] tt
  Parses-suffix = subst (λ (m : Parser (Unit {0})). Parses m [] tt) (sym no_suffix) (Parses-pure tt)

  Parses-binary_point :
      (p : BinaryInput)
      → BinaryFits p
      → Parses (binary_point group variation p.index) (binary_body p) p
  unfolding binary_point
  Parses-binary_point p h =
      Parses-bind read_u8 _ (p.flags ∷ []) [] p.flags p (Parses-read_u8 p.flags)
        (Parses-bind (skip_event_suffix group variation) _ [] [] tt p Parses-suffix (Parses-pure p))

  Parses-analog_point :
      read_analog_value variation ≡ read_i32_le
      → (p : AnalogInput) → AnalogFits p
      → Parses (analog_point group variation p.index) (analog_body p) p
  unfolding analog_point
  Parses-analog_point wide p h =
      Parses-bind read_u8 _ (p.flags ∷ []) (to_le_bytes 4 p.value) p.flags p
        (Parses-read_u8 p.flags)
        (Parses-bind (read_analog_value variation) _ (to_le_bytes 4 p.value) [] p.value p
          (subst (λ (m : Parser ℕ). Parses m (to_le_bytes 4 p.value) p.value) (sym wide)
            (Parses-read_i32_le p.value h.1))
          (Parses-bind (skip_event_suffix group variation) _ [] [] tt p Parses-suffix
            (Parses-pure p)))

  Parses-counter_point :
      (p : Counter)
      → CounterFits p
      → Parses (counter_point group variation p.index) (counter_body p) p
  unfolding counter_point
  Parses-counter_point p h =
      Parses-bind read_u8 _ (p.flags ∷ []) (to_le_bytes 4 p.value) p.flags p
        (Parses-read_u8 p.flags)
        (Parses-bind read_u32_le _ (to_le_bytes 4 p.value) [] p.value p
          (Parses-read_u32_le p.value h.1)
          (Parses-bind (skip_event_suffix group variation) _ [] [] tt p Parses-suffix
            (Parses-pure p)))

  pub binary-Encoded :
      (xs : List BinaryInput)
      → All BinaryFits xs
      → HasRoom (map (λ p. p.index) xs)
      → Encoded (λ g v out. encode_binary_like g v xs out) (decode_binary_points group variation) xs
  unfolding encode_binary_like decode_binary_points
  binary-Encoded xs h room =
      encode_like-Encoded (λ p. p.index) binary_body (binary_point group variation) BinaryFits
        Parses-binary_point (λ p hp. hp) (decode_binary_points group variation) (λ start stop. refl)
        (λ count. refl) xs h room

  pub analog-Encoded :
      read_analog_value variation ≡ read_i32_le
      → (xs : List AnalogInput) → All AnalogFits xs
      → HasRoom (map (λ p. p.index) xs)
      → Encoded (λ g v out. encode_analog_like g v xs out) (decode_analog_points group variation) xs
  unfolding encode_analog_like decode_analog_points
  analog-Encoded wide xs h room =
      encode_like-Encoded (λ p. p.index) analog_body (analog_point group variation) AnalogFits
        (Parses-analog_point wide) (λ p hp. hp.0) (decode_analog_points group variation)
        (λ start stop. refl) (λ count. refl) xs h room

  pub counter-Encoded :
      (xs : List Counter)
      → All CounterFits xs
      → HasRoom (map (λ p. p.index) xs)
      → Encoded
          (λ g v out.
            encode_like
              (λ p. p.index)
              counter_body
              (λ p. to_le_bytes 2 p.index ++ counter_body p)
              g
              v
              xs
              out)
          (decode_counter_points group variation)
          xs
  unfolding decode_counter_points
  counter-Encoded xs h room =
      encode_like-Encoded (λ p. p.index) counter_body (counter_point group variation) CounterFits
        Parses-counter_point (λ p hp. hp.0) (decode_counter_points group variation)
        (λ start stop. refl) (λ count. refl) xs h room
