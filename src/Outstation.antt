-- ===== src/Outstation.antt =====
-- crates/dnp3-outstation/src/lib.rs: the database and the session. The database stands behind a lock
-- that other tasks may write to; a handler reads it once, so it is the handler's argument. A string
-- error of the channel cannot arise here, and the error type is `ProtocolError`.
pub mod Application
pub mod Delivers
pub mod Responses
pub mod Runs
pub mod Invariant
pub mod Channel
use dnp3_rust_lib.Prelude.{
  ℕ, ◌+◌, ◌%◌, Bool, true, false, not, ◌||◌, bit_and, none, some, List, [], ◌∷◌, ◌++◌, length,
  if◌then◌else◌,
}
use dnp3_rust_lib.Core.Error.{Result, ok, err, stuck, ◌>>=◌, unknown_value}
use dnp3_rust_lib.Core.Address
use dnp3_rust_lib.Core.Address.{Address, address_eq}
use dnp3_rust_lib.Link.ControlField.{
  outstation_to_master, direction_eq, LinkFunction, primary, PrimaryFunction,
}
use dnp3_rust_lib.Link.LinkFrame
use dnp3_rust_lib.Link.LinkFrame.{LinkFrame}
use dnp3_rust_lib.Transport.Segment
use dnp3_rust_lib.Transport.Segment.{TransportSegment, fragment}
use dnp3_rust_lib.Transport.Reassembler
use dnp3_rust_lib.Transport.Reassembler.{Reassembler, push}
use dnp3_rust_lib.App.AppControl
use dnp3_rust_lib.App.FunctionCode
use dnp3_rust_lib.App.FunctionCode.{FunctionCode}
use dnp3_rust_lib.App.Points.{BinaryInput, BinaryOutput, AnalogInput, AnalogOutput, Counter}
use dnp3_rust_lib.App.AppObject.{
  AppObject, binary_inputs, binary_outputs, analog_inputs, analog_outputs, counters, class_scan,
  integrity_poll,
}
use dnp3_rust_lib.App.ApplicationFragment
use dnp3_rust_lib.App.ApplicationFragment.{ApplicationFragment}

pub record Database : Type 0 where
  pub binary_inputs : List BinaryInput
  pub binary_outputs : List BinaryOutput
  pub analog_inputs : List AnalogInput
  pub analog_outputs : List AnalogOutput
  pub counters : List Counter

-- `if !values.is_empty() { objects.push(object(values)) }`
abbrev pub unless_empty {ℓ} : {A : Type ℓ} → (List A → AppObject) → List A → List AppObject
unless_empty object [] = []
unless_empty object (x ∷ xs) = object (x ∷ xs) ∷ []

unfoldable pub integrity_objects : Database → List AppObject
integrity_objects db =
    unless_empty binary_inputs db.binary_inputs
    ++ (unless_empty binary_outputs db.binary_outputs
        ++ (unless_empty analog_inputs db.analog_inputs
            ++ (unless_empty analog_outputs db.analog_outputs
                ++ unless_empty counters db.counters)))

-- `config.outstation` and the session's own state.
pub record OutstationSession : Type 0 where
  pub outstation : Address
  pub transport_sequence : ℕ
  pub reassembler : Reassembler

-- `OutstationSession::with_shared_database`
unfoldable pub new : Address → OutstationSession
new outstation = record {
  outstation = outstation;
  transport_sequence = 0;
  reassembler = Reassembler.new;
}

abbrev pub asks_static : AppObject → Bool
asks_static integrity_poll = true
asks_static (class_scan c) = true
asks_static _ = false

abbrev pub any_static : List AppObject → Bool
any_static [] = false
any_static (object ∷ rest) = asks_static object || any_static rest

unfoldable pub handle_application : Database → ApplicationFragment → Result ApplicationFragment
unfolding integrity_objects
handle_application db request = elim request.function [
  | FunctionCode.read ↦ ok (
      ApplicationFragment.new (AppControl.new true true false false request.control.sequence)
        FunctionCode.response (if any_static request.objects then integrity_objects db else []))
  | FunctionCode.record_current_time ↦ ok (
      ApplicationFragment.new (AppControl.single request.control.sequence) FunctionCode.response [])
  | FunctionCode.write ↦ ok (
      ApplicationFragment.new (AppControl.single request.control.sequence) FunctionCode.response [])
  | other ↦ err (unknown_value "unsupported outstation function" (FunctionCode.encode other))
]

-- One round of the `map` of `encode_response`.
unfoldable pub response_frame :
    OutstationSession → Address → Bool → TransportSegment → Result LinkFrame
response_frame s destination tool_style segment =
    if tool_style
    then LinkFrame.unconfirmed_user_data destination s.outstation (Segment.encode segment)
    else LinkFrame.outstation_unconfirmed_user_data destination s.outstation
        (Segment.encode segment)

-- `collect` into a result stops at the first error.
unfoldable pub response_frames :
    OutstationSession → Address → Bool → List TransportSegment → Result (List LinkFrame)
unfolding response_frame
response_frames s destination tool_style [] = ok []
response_frames s destination tool_style (segment ∷ rest) = do
  frame ← response_frame s destination tool_style segment
  frames ← response_frames s destination tool_style rest
  ok (frame ∷ frames)

abbrev pub Handled : Type 0
Handled = Result (List LinkFrame) × OutstationSession

-- The count is cut to a u8 and the sum is a u8.
unfoldable pub encode_response : OutstationSession → Address → ApplicationFragment → Bool → Handled
unfolding response_frames
encode_response s destination response tool_style = elim (ApplicationFragment.encode response) [
  | ok encoded ↦
      let segments = fragment encoded s.transport_sequence in
      (
        response_frames s destination tool_style segments,
        record s {
          transport_sequence = bit_and ((s.transport_sequence + length segments % 256) % 256) 0x3f;
        },
      )
  | err e ↦ (err e, s)
  | stuck ↦ (stuck, s)
]

-- `handle_user_data` from the completed application bytes on.
unfoldable pub handle_request : OutstationSession → Database → LinkFrame → List ℕ → Handled
unfolding encode_response handle_application
handle_request s db frame application_bytes =
    let tool_style = direction_eq frame.control.direction outstation_to_master in
    elim (ApplicationFragment.decode application_bytes >>= handle_application db) [
      | ok response ↦ encode_response s frame.source response tool_style
      | err e ↦ (err e, s)
      | stuck ↦ (stuck, s)
    ]

-- The session keeps what `push` has done to the reassembler, also after an error.
unfoldable pub handle_segment :
    OutstationSession → Database → LinkFrame → TransportSegment → Handled
unfolding handle_request
handle_segment s db frame segment =
    let (pushed, reassembler) = push segment s.reassembler in
    let s' = record s { reassembler = reassembler } in
    elim pushed [
      | ok (some application_bytes) ↦ handle_request s' db frame application_bytes
      | ok none ↦ (ok [], s')
      | err e ↦ (err e, s')
      | stuck ↦ (stuck, s')
    ]

unfoldable pub handle_user_data : OutstationSession → Database → LinkFrame → Handled
unfolding handle_segment
handle_user_data s db frame = elim (Segment.decode frame.payload) [
  | ok segment ↦ handle_segment s db frame segment
  | err e ↦ (err e, s)
  | stuck ↦ (stuck, s)
]

-- The `match` of `handle_frame` on a frame for this outstation.
unfoldable pub dispatch : OutstationSession → Database → LinkFrame → LinkFunction → Handled
unfolding handle_user_data
dispatch s db frame (primary PrimaryFunction.reset_link_states) = (
  ok (
      (if direction_eq frame.control.direction outstation_to_master
        then LinkFrame.legacy_ack frame.source s.outstation
        else LinkFrame.ack frame.source s.outstation)
      ∷ []),
  record s { reassembler = Reassembler.reset s.reassembler; transport_sequence = 0 },
)
dispatch s db frame (primary PrimaryFunction.test_link_states) =
    (ok (LinkFrame.legacy_ack_with_fcb frame.source s.outstation frame.control.fcb ∷ []), s)
dispatch s db frame (primary PrimaryFunction.request_link_status) =
    (ok (LinkFrame.link_status frame.source s.outstation ∷ []), s)
dispatch s db frame (primary PrimaryFunction.unconfirmed_user_data) = handle_user_data s db frame
dispatch s db frame (primary PrimaryFunction.confirmed_user_data) =
    let (handled, s') = handle_user_data s db frame in
    (
      handled >>= λ frames.
          ok (LinkFrame.ack_with_fcb frame.source s.outstation frame.control.fcb ∷ frames),
      s',
    )
dispatch s db frame _ = (ok [], s)

unfoldable pub handle_frame : OutstationSession → Database → LinkFrame → Handled
unfolding dispatch
handle_frame s db frame =
    if not (address_eq frame.destination s.outstation)
    then (ok [], s)
    else dispatch s db frame frame.control.function
