-- ===== src/Tests/App.antt =====
-- Application fragments on concrete bytes.
use dnp3_rust_lib.Prelude.{ℕ, ◌≡◌, ◌≢◌, refl, true, false, List, [], ◌∷◌, ◌++◌, arith}
use dnp3_rust_lib.Core.Error.{ok, err, stuck, invalid_length}
use dnp3_rust_lib.Core.Reader
use dnp3_rust_lib.Core.Reader.{Reader, read_u8, skip_padding_zeros}
use dnp3_rust_lib.Core.Reader.Reading.{Parses}
use dnp3_rust_lib.App.AppControl
use dnp3_rust_lib.App.AppControl.{AppControl}
use dnp3_rust_lib.App.AppControl.Codes.{decode-encode_app_control}
use dnp3_rust_lib.App.FunctionCode
use dnp3_rust_lib.App.FunctionCode.{FunctionCode}
use dnp3_rust_lib.App.ObjectHeader
use dnp3_rust_lib.App.ObjectHeader.{range16}
use dnp3_rust_lib.App.ObjectHeader.RoundTrip as HeaderRoundTrip
use dnp3_rust_lib.App.Points.{BinaryInput, is_run}
use dnp3_rust_lib.App.Points.Encode.{encode_binary_like}
use dnp3_rust_lib.App.Points.Binary.{decode_binary_points}
use dnp3_rust_lib.App.Points.Wrapped.{encode_binary_like-wrapped}
use dnp3_rust_lib.App.AppObject
use dnp3_rust_lib.App.AppObject.{
  class_parse, binary_inputs, counters, integrity_poll, class_scan, class1, class2, class3,
}
use dnp3_rust_lib.App.ApplicationFragment
use dnp3_rust_lib.App.ApplicationFragment.{ApplicationFragment}
use dnp3_rust_lib.App.ApplicationFragment.RoundTrip.{IsValid, decode-encode_fragment}
use dnp3_rust_lib.App.ApplicationFragment.Padding.{padding, decode-encode_padded}
use dnp3_rust_lib.App.ApplicationFragment.Terminates.{decode-ne-stuck_fragment}

abbrev control : AppControl
control = record { fir = true; fin = true; con = false; uns = false; sequence = 5 }

decode-encode_app_control_example : AppControl.decode (AppControl.encode control) ≡ control
decode-encode_app_control_example = decode-encode_app_control control (omega arith)

abbrev range_header : ObjectHeader.ObjectHeader
range_header = ObjectHeader.new 1 2 (range16 0 1)

Parses-decode_header_example :
    (ObjectHeader.encode range_header (0xc0 ∷ []) ≡ 0xc0 ∷ ObjectHeader.encode range_header [])
    × Parses ObjectHeader.decode (ObjectHeader.encode range_header []) range_header
Parses-decode_header_example =
    HeaderRoundTrip.Parses-decode_header range_header (0xc0 ∷ []) (omega arith, omega arith)

-- A run of two points, and counters whose indices are none.
abbrev pub response : ApplicationFragment
response = record {
  control = control;
  function = FunctionCode.response;
  iin = 0x8001;
  objects =
      binary_inputs (record { index = 7; flags = 1 } ∷ record { index = 8; flags = 129 } ∷ [])
      ∷ counters (
          record { index = 3; flags = 1; value = 70000 }
          ∷ record { index = 9; flags = 1; value = 5 }
          ∷ [])
      ∷ [];
}

pub response-IsValid : IsValid response
unfolding ApplicationFragment.includes_iin is_run
response-IsValid = (
  omega arith,
  omega arith,
  (
    ((omega arith, (omega arith, tt)), omega arith),
    ((((omega arith, omega arith), ((omega arith, omega arith), tt)), omega arith), tt),
  ),
)

decode-encode_fragment_example :
    (bytes : List ℕ) × (ApplicationFragment.encode response ≡ ok bytes)
    × (ApplicationFragment.decode bytes ≡ ok response)
decode-encode_fragment_example = decode-encode_fragment response response-IsValid

decode-encode_padded_example :
    (bytes : List ℕ) × (ApplicationFragment.encode response ≡ ok bytes)
    × (ApplicationFragment.decode (bytes ++ (padding 2 ++ (0 ∷ []))) ≡ ok response)
decode-encode_padded_example =
    decode-encode_padded response 2 (0 ∷ []) response-IsValid (omega arith)

-- The request of the tests of crates/dnp3-outstation.
abbrev pub request : List ℕ
request =
    0xc0 ∷ 0x01 ∷ 0x3c ∷ 0x01 ∷ 0x06 ∷ 0x3c ∷ 0x02 ∷ 0x06 ∷ 0x3c ∷ 0x03 ∷ 0x06 ∷ 0x3c ∷ 0x04 ∷ 0x06
    ∷ []

request_decoded :
    ApplicationFragment.decode request ≡ ok (ApplicationFragment.simulator_class_scan 0)
unfolding ApplicationFragment.decode ApplicationFragment.simulator_class_scan AppControl.single
    read_u8 Reader.new FunctionCode.decode skip_padding_zeros ObjectHeader.decode AppObject.decode
    class_parse AppControl.decode
request_decoded = refl

decode-ne-stuck_fragment_example : ApplicationFragment.decode request ≢ stuck
decode-ne-stuck_fragment_example = decode-ne-stuck_fragment request

-- The points 65535 and 0.
abbrev last_point : BinaryInput
last_point = record { index = 65535; flags = 1 }

abbrev first_point : BinaryInput
first_point = record { index = 0; flags = 129 }

last_first_run : is_run 65535 0 (65535 ∷ 0 ∷ []) ≡ true
unfolding is_run
last_first_run = refl

encode_binary_like-wrapped_example :
    (stop : ℕ) × (encode_binary_like 1 2 (last_point ∷ first_point ∷ []) []
      ≡ ok (ObjectHeader.encode (ObjectHeader.new 1 2 (range16 65535 stop)) [] ++ (1 ∷ 129 ∷ [])))
    × ((r : Reader)
        → decode_binary_points 1 2 (range16 65535 stop) r ≡ err (invalid_length 65535 stop))
encode_binary_like-wrapped_example =
    encode_binary_like-wrapped 1 2 last_point (first_point ∷ []) [] (omega arith) last_first_run
      (omega arith) (omega arith)
