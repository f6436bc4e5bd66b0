-- ===== src/Link/ControlField.antt =====
-- `Direction`, the function codes and `ControlField` of crates/dnp3-link/src/lib.rs.
pub mod Codes
use dnp3_rust_lib.Prelude.{ℕ, Bool, true, false, bit_and, bit_or, ◌==◌, ◌!=◌, if◌then◌else◌}
use dnp3_rust_lib.Core.Error.{Result, ok, err, stuck, ◌>>=◌, unknown_value}

pub data Direction : Type 0 where
  master_to_outstation outstation_to_master : Direction

-- `Direction::bit`
unfoldable pub bit : Direction → ℕ
bit master_to_outstation = 0
bit outstation_to_master = 0x80

-- The derived `==`.
abbrev pub direction_eq : Direction → Direction → Bool
direction_eq master_to_outstation master_to_outstation = true
direction_eq master_to_outstation outstation_to_master = false
direction_eq outstation_to_master master_to_outstation = false
direction_eq outstation_to_master outstation_to_master = true

pub data PrimaryFunction : Type 0 where
  reset_link_states reset_user_process test_link_states : PrimaryFunction
  confirmed_user_data unconfirmed_user_data request_link_status : PrimaryFunction

-- `PrimaryFunction::code`
unfoldable pub primary_code : PrimaryFunction → ℕ
primary_code reset_link_states = 0
primary_code reset_user_process = 1
primary_code test_link_states = 2
primary_code confirmed_user_data = 3
primary_code unconfirmed_user_data = 4
primary_code request_link_status = 9

-- `PrimaryFunction::parse`
unfoldable pub primary_parse : ℕ → Result PrimaryFunction
primary_parse value =
    if value == 0
    then ok reset_link_states
    else if value == 1
    then ok reset_user_process
    else if value == 2
    then ok test_link_states
    else if value == 3
    then ok confirmed_user_data
    else if value == 4
    then ok unconfirmed_user_data
    else if value == 9
    then ok request_link_status
    else err (unknown_value "primary link function" value)

pub data SecondaryFunction : Type 0 where
  ack nack link_status not_supported : SecondaryFunction

-- `SecondaryFunction::code`
unfoldable pub secondary_code : SecondaryFunction → ℕ
secondary_code ack = 0
secondary_code nack = 1
secondary_code link_status = 11
secondary_code not_supported = 15

-- `SecondaryFunction::parse`
unfoldable pub secondary_parse : ℕ → Result SecondaryFunction
secondary_parse value =
    if value == 0
    then ok ack
    else if value == 1
    then ok nack
    else if value == 11
    then ok link_status
    else if value == 15
    then ok not_supported
    else err (unknown_value "secondary link function" value)

pub data LinkFunction : Type 0 where
  primary : PrimaryFunction → LinkFunction
  secondary : SecondaryFunction → LinkFunction

pub record ControlField : Type 0 where
  pub direction : Direction
  pub fcb : Bool
  pub fcv : Bool
  pub function : LinkFunction

-- `ControlField::primary`
unfoldable pub primary_control : Direction → PrimaryFunction → Bool → Bool → ControlField
primary_control direction function fcb fcv = record {
  direction = direction;
  fcb = fcb;
  fcv = fcv;
  function = primary function;
}

-- `ControlField::secondary`
unfoldable pub secondary_control : Direction → SecondaryFunction → ControlField
secondary_control direction function = record {
  direction = direction;
  fcb = false;
  fcv = false;
  function = secondary function;
}

-- The pair that `encode` computes first: the `prm` bit and the function code.
unfoldable pub prm_function : LinkFunction → ℕ × ℕ
unfolding primary_code secondary_code
prm_function (primary f) = (0x40, primary_code f)
prm_function (secondary f) = (0x00, secondary_code f)

unfoldable pub encode : ControlField → ℕ
unfolding bit prm_function
encode c =
    let (prm, function) = prm_function c.function in
    bit_or
      (bit_or (bit_or (bit_or (bit c.direction) prm) (if c.fcb then 0x20 else 0))
        (if c.fcv then 0x10 else 0))
      function

unfoldable pub decode : ℕ → Result ControlField
unfolding primary_parse secondary_parse
decode value =
    let direction =
      if bit_and value 0x80 == 0 then master_to_outstation else outstation_to_master in
    let fcb = bit_and value 0x20 != 0 in
    let fcv = bit_and value 0x10 != 0 in
    let function_code = bit_and value 0x0f in
    do
      function ←
          if bit_and value 0x40 != 0
          then (primary_parse function_code >>= λ f. ok (primary f))
          else (secondary_parse function_code >>= λ f. ok (secondary f))
      ok (record { direction = direction; fcb = fcb; fcv = fcv; function = function })
