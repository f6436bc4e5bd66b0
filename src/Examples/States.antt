-- ===== src/Examples/States.antt =====
-- The names of states in examples/common/master_shared.rs.
use dnp3_rust_lib.Prelude.{
  ℕ, ◌/◌, ◌^◌, ◌≡◌, refl, String, Bool, true, false, bit_and, if◌then◌else◌, ◌==◌, ◌!=◌,
}
use dnp3_rust_lib.Examples.Points.{binary_flags, on_off}

-- `(flags >> 6) & 0x03`
abbrev pub state_bits : ℕ → ℕ
state_bits flags = bit_and (flags / 2 ^ 6) 0x03

unfoldable pub binary_state : ℕ → String
binary_state flags =
    if state_bits flags == 2
    then "ON"
    else if state_bits flags == 1
    then "OFF"
    else if state_bits flags == 3
    then "INDETERMINATE"
    else if flags == 0x01
    then "OFF"
    else if bit_and flags 0x01 != 0
    then "ON"
    else "OFF"

unfoldable pub double_bit_state : ℕ → String
double_bit_state flags =
    if state_bits flags == 2
    then "ON"
    else if state_bits flags == 1
    then "OFF"
    else if state_bits flags == 3
    then "INDETERMINATE"
    else "INTERMEDIATE"

unfoldable pub binary_quality : ℕ → String
binary_quality flags = if bit_and flags 0x80 != 0 then "online" else "-"

-- The master's program names a binary point as the outstation's program does that has set it.
binary_state-binary_flags : (on : Bool) → binary_state (binary_flags on) ≡ on_off on
unfolding binary_state
binary_state-binary_flags true = refl
binary_state-binary_flags false = refl
