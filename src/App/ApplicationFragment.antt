-- ===== src/App/ApplicationFragment.antt =====
-- `ApplicationFragment` of crates/dnp3-app/src/lib.rs.
pub mod Written
pub mod RoundTrip
pub mod Padding
pub mod Terminates
use dnp3_rust_lib.Prelude.{ℕ, zero, suc, Bool, true, false, List, [], ◌∷◌, ◌++◌, ltb, if◌then◌else◌}
use dnp3_rust_lib.Prelude.Bytes.{to_le_bytes}
use dnp3_rust_lib.Core.Error
use dnp3_rust_lib.Core.Error.{Result, ok, err, stuck}
use dnp3_rust_lib.Core.Reader
use dnp3_rust_lib.Core.Reader.{
  Reader, Parser, ◌>>=◌, pure, lift, read_u8, read_u16_le, remaining, skip_padding_zeros,
}
use dnp3_rust_lib.App.AppControl
use dnp3_rust_lib.App.AppControl.{AppControl}
use dnp3_rust_lib.App.FunctionCode
use dnp3_rust_lib.App.FunctionCode.{FunctionCode}
use dnp3_rust_lib.App.ObjectHeader
use dnp3_rust_lib.App.AppObject
use dnp3_rust_lib.App.AppObject.{AppObject, integrity_poll, class_scan, class1, class2, class3}

pub record ApplicationFragment : Type 0 where
  pub control : AppControl
  pub function : FunctionCode
  pub iin : ℕ
  pub objects : List AppObject

unfoldable pub new : AppControl → FunctionCode → List AppObject → ApplicationFragment
new control function objects = record {
  control = control;
  function = function;
  iin = 0;
  objects = objects;
}

-- `ApplicationFragment::integrity_poll`
unfoldable pub integrity_poll_request : ℕ → ApplicationFragment
unfolding new
integrity_poll_request sequence =
    new (AppControl.single sequence) FunctionCode.read (integrity_poll ∷ [])

unfoldable pub simulator_class_scan : ℕ → ApplicationFragment
unfolding new
simulator_class_scan sequence =
    new (AppControl.single sequence) FunctionCode.read
      (integrity_poll ∷ class_scan class1 ∷ class_scan class2 ∷ class_scan class3 ∷ [])

unfoldable pub simulator_event_scan : ℕ → ApplicationFragment
unfolding new
simulator_event_scan sequence =
    new (AppControl.single sequence) FunctionCode.read
      (class_scan class1 ∷ class_scan class2 ∷ class_scan class3 ∷ [])

unfoldable pub includes_iin : FunctionCode → Bool
includes_iin FunctionCode.response = true
includes_iin FunctionCode.unsolicited_response = true
includes_iin _ = false

-- The `for` of `encode`.
unfoldable pub encode_objects : List AppObject → List ℕ → Result (List ℕ)
encode_objects [] out = ok out
encode_objects (object ∷ rest) out =
    Error.◌>>=◌ (AppObject.encode object out) λ out'. encode_objects rest out'

unfoldable pub encode : ApplicationFragment → Result (List ℕ)
unfolding includes_iin encode_objects
encode f = encode_objects f.objects (
    AppControl.encode f.control
    ∷ FunctionCode.encode f.function
    ∷ (if includes_iin f.function then to_le_bytes 2 f.iin else []))

-- A round of the `while` of `decode` behind the padding, and the rounds after it.
abbrev pub decode_round : Parser (List AppObject) → Parser (List AppObject)
decode_round later r = elim (ltb (remaining r) 3) [
  | true ↦ ok ([], r)
  | false ↦
      (do
        header ← ObjectHeader.decode
        object ← AppObject.decode header
        rest ← later
        pure (object ∷ rest))
        r
]

-- The `while` of `decode`. Each round reads a header, three bytes at least.
unfoldable pub decode_objects : ℕ → Parser (List AppObject)
decode_objects zero r = if ltb (remaining r) 3 then ok ([], r) else stuck
decode_objects (suc fuel) r = elim (ltb (remaining r) 3) [
  | true ↦ ok ([], r)
  | false ↦ (skip_padding_zeros >>= λ _. decode_round (decode_objects fuel)) r
]

unfoldable pub decode_fragment : Parser ApplicationFragment
unfolding decode_objects includes_iin
decode_fragment = do
  control ← read_u8
  code ← read_u8
  function ← lift (FunctionCode.decode code)
  iin ← (if includes_iin function then read_u16_le else pure 0)
  objects ← (λ r. decode_objects (remaining r) r)
  pure (record {
    control = AppControl.decode control;
    function = function;
    iin = iin;
    objects = objects;
  })

unfoldable pub decode : List ℕ → Result ApplicationFragment
unfolding decode_fragment
decode input = Error.◌>>=◌ (decode_fragment (Reader.new input)) λ (fragment, _). ok fragment
