-- ===== src/App/FunctionCode.antt =====
-- `FunctionCode` of crates/dnp3-app/src/lib.rs.
use dnp3_rust_lib.Prelude.{ℕ, ◌≡◌, refl, ◌==◌, if◌then◌else◌}
use dnp3_rust_lib.Core.Error.{Result, ok, err, unknown_value}

pub data FunctionCode : Type 0 where
  confirm read write select operate direct_operate freeze : FunctionCode
  enable_unsolicited disable_unsolicited assign_class delay_measure : FunctionCode
  record_current_time response unsolicited_response : FunctionCode

unfoldable pub encode : FunctionCode → ℕ
encode confirm = 0
encode read = 1
encode write = 2
encode select = 3
encode operate = 4
encode direct_operate = 5
encode freeze = 7
encode enable_unsolicited = 20
encode disable_unsolicited = 21
encode assign_class = 22
encode delay_measure = 23
encode record_current_time = 24
encode response = 129
encode unsolicited_response = 130

unfoldable pub decode : ℕ → Result FunctionCode
decode value =
    if value == 0
    then ok confirm
    else if value == 1
    then ok read
    else if value == 2
    then ok write
    else if value == 3
    then ok select
    else if value == 4
    then ok operate
    else if value == 5
    then ok direct_operate
    else if value == 7
    then ok freeze
    else if value == 20
    then ok enable_unsolicited
    else if value == 21
    then ok disable_unsolicited
    else if value == 22
    then ok assign_class
    else if value == 23
    then ok delay_measure
    else if value == 24
    then ok record_current_time
    else if value == 129
    then ok response
    else if value == 130
    then ok unsolicited_response
    else err (unknown_value "application function" value)

-- Every function code is read back from its byte.
pub decode-encode_function : (f : FunctionCode) → decode (encode f) ≡ ok f
unfolding decode encode
decode-encode_function confirm = refl
decode-encode_function _ = refl
