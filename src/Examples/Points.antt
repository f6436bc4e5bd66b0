-- ===== src/Examples/Points.antt =====
-- examples/common/outstation_shared.rs: the points of an outstation that a user sets. A signed value is
-- its bit pattern, as in App/Points.
use dnp3_rust_lib.Prelude.{ℕ, Bool, true, String, List, [], ◌∷◌, map, if◌then◌else◌, ◌==◌}
use dnp3_rust_lib.App.Points.{BinaryInput, BinaryOutput, AnalogInput, AnalogOutput, Counter}
use dnp3_rust_lib.Outstation.{Database}

pub record IndexedBool : Type 0 where
  pub index : ℕ
  pub value : Bool

pub record IndexedI32 : Type 0 where
  pub index : ℕ
  pub value : ℕ

pub record IndexedU32 : Type 0 where
  pub index : ℕ
  pub value : ℕ

pub record PointConfig : Type 0 where
  pub binary_inputs : List IndexedBool
  pub binary_outputs : List IndexedBool
  pub analog_inputs : List IndexedI32
  pub analog_outputs : List IndexedI32
  pub counters : List IndexedU32

-- `PointConfig::default`
abbrev pub no_points : PointConfig
no_points = record {
  binary_inputs = [];
  binary_outputs = [];
  analog_inputs = [];
  analog_outputs = [];
  counters = [];
}

abbrev pub binary_flags : Bool → ℕ
binary_flags on = if on then 0x81 else 0x00

abbrev pub analog_flags : ℕ
analog_flags = 0x81

abbrev pub on_off : Bool → String
on_off on = if on then "ON" else "OFF"

-- `if points.is_empty() { vec![default] } else { points.iter().map(point).collect() }`
abbrev pub points_or {ℓ} : {A : Type ℓ} {B : Type ℓ} → B → (A → B) → List A → List B
points_or default point [] = default ∷ []
points_or default point (x ∷ xs) = map point (x ∷ xs)

unfoldable pub database_from_points : PointConfig → Database
database_from_points points = record {
  binary_inputs =
      points_or (record { index = 0; flags = binary_flags true })
        (λ point. record { index = point.index; flags = binary_flags point.value })
        points.binary_inputs;
  binary_outputs =
      points_or (record { index = 0; flags = binary_flags true })
        (λ point. record { index = point.index; flags = binary_flags point.value })
        points.binary_outputs;
  analog_inputs =
      points_or (record { index = 0; flags = analog_flags; value = 1234 })
        (λ point. record { index = point.index; flags = analog_flags; value = point.value })
        points.analog_inputs;
  analog_outputs =
      points_or (record { index = 0; flags = analog_flags; value = 5678 })
        (λ point. record { index = point.index; flags = analog_flags; value = point.value })
        points.analog_outputs;
  counters =
      points_or (record { index = 0; flags = analog_flags; value = 42 })
        (λ point. record { index = point.index; flags = analog_flags; value = point.value })
        points.counters;
}

pub record PointIndex {ℓ} (T : Type ℓ) : Type ℓ where
  pub index : T → ℕ

instance abbrev pub binary_input_index : PointIndex BinaryInput
binary_input_index = record { index = λ p. p.index }

instance abbrev pub binary_output_index : PointIndex BinaryOutput
binary_output_index = record { index = λ p. p.index }

instance abbrev pub analog_input_index : PointIndex AnalogInput
analog_input_index = record { index = λ p. p.index }

instance abbrev pub analog_output_index : PointIndex AnalogOutput
analog_output_index = record { index = λ p. p.index }

instance abbrev pub counter_index : PointIndex Counter
counter_index = record { index = λ p. p.index }

-- The first entry of the index is replaced; without one, the point comes last.
unfoldable pub upsert {ℓ} : {T : Type ℓ} ⦃i : PointIndex T⦄ → List T → ℕ → T → List T
upsert [] index point = point ∷ []
upsert ⦃i⦄ (entry ∷ rest) index point =
    let later = upsert rest index point in
    if i.index entry == index then point ∷ rest else entry ∷ later

unfoldable pub set_binary_input : Database → ℕ → Bool → Database
unfolding upsert
set_binary_input database index on = record database {
  binary_inputs =
      upsert database.binary_inputs index (record { index = index; flags = binary_flags on });
}

unfoldable pub set_binary_output : Database → ℕ → Bool → Database
unfolding upsert
set_binary_output database index on = record database {
  binary_outputs =
      upsert database.binary_outputs index (record { index = index; flags = binary_flags on });
}

unfoldable pub set_analog_input : Database → ℕ → ℕ → Database
unfolding upsert
set_analog_input database index value = record database {
  analog_inputs =
      upsert database.analog_inputs index
        (record { index = index; flags = analog_flags; value = value });
}

unfoldable pub set_analog_output : Database → ℕ → ℕ → Database
unfolding upsert
set_analog_output database index value = record database {
  analog_outputs =
      upsert database.analog_outputs index
        (record { index = index; flags = analog_flags; value = value });
}

unfoldable pub set_counter : Database → ℕ → ℕ → Database
unfolding upsert
set_counter database index value = record database {
  counters =
      upsert database.counters index
        (record { index = index; flags = analog_flags; value = value });
}
