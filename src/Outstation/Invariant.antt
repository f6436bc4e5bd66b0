-- ===== src/Outstation/Invariant.antt =====
-- The session's numbers stay in range, and its reassembler only holds a run of segments.
use dnp3_rust_lib.Prelude.{
  ℕ, ◌+◌, ◌%◌, ◌<◌, ◌≡◌, refl, Bool-cases, inl, inr, Bool, bit_and, Option, none, some, List, [],
  ◌∷◌, length, arith,
}
use dnp3_rust_lib.Prelude.Bytes.{IsBytes}
use dnp3_rust_lib.Prelude.Masks.{and_3f}
use dnp3_rust_lib.Core.Error.{Result, ok, err, stuck, ◌>>=◌}
use dnp3_rust_lib.Core.Address.{Address, address_eq}
use dnp3_rust_lib.Link.ControlField.{
  LinkFunction, primary, PrimaryFunction, direction_eq, outstation_to_master,
}
use dnp3_rust_lib.Link.LinkFrame.{LinkFrame}
use dnp3_rust_lib.Transport.Segment
use dnp3_rust_lib.Transport.Segment.{TransportSegment, fragment}
use dnp3_rust_lib.Transport.Segment.Shape.{decoded-Fits}
use dnp3_rust_lib.Transport.Reassembler.{push}
use dnp3_rust_lib.Transport.Reassembler.Sound.{Reaches, start, pushed, cleared}
use dnp3_rust_lib.App.ApplicationFragment
use dnp3_rust_lib.App.ApplicationFragment.{ApplicationFragment}
use dnp3_rust_lib.Outstation.{
  Database, OutstationSession, Handled, new, handle_application, encode_response, response_frames,
  handle_request, handle_segment, handle_user_data, dispatch, handle_frame,
}

-- The next sequence number has six bits, and the reassembler's state comes from pushes and resets.
abbrev pub IsValid : OutstationSession → Type 0
IsValid s =
    (s.transport_sequence < 64)
    × ((earlier : List TransportSegment) × Reaches earlier s.reassembler)

-- A session starts in a valid state.
pub new-IsValid : (outstation : Address) → IsValid (new outstation)
unfolding new
new-IsValid outstation = (omega arith, ([], start))

pub encode_response-IsValid :
    (s : OutstationSession) (destination : Address) (response : ApplicationFragment)
    (tool_style : Bool)
    → IsValid s
    → IsValid (encode_response s destination response tool_style).1
unfolding encode_response
encode_response-IsValid s destination response tool_style (hs, hr) =
    go (ApplicationFragment.encode response)
  where
    go :
        (x : Result (List ℕ))
        → IsValid
            (elim x as (λ x. Handled) [
              | ok encoded ↦ (
                response_frames s destination tool_style (fragment encoded s.transport_sequence),
                record s {
                  transport_sequence =
                      bit_and
                        ((s.transport_sequence
                            + length (fragment encoded s.transport_sequence) % 256)
                          % 256)
                        0x3f;
                },
              )
              | err e ↦ (err e, s)
              | stuck ↦ (stuck, s)
            ]).1
    go (ok encoded) = (
      omega (
        arith,
        and_3f
            ((s.transport_sequence + length (fragment encoded s.transport_sequence) % 256) % 256),
      ),
      hr,
    )
    go (err e) = (hs, hr)
    go stuck = (hs, hr)

handle_request-IsValid :
    (s : OutstationSession) (db : Database) (frame : LinkFrame) (bytes : List ℕ)
    → IsValid s
    → IsValid (handle_request s db frame bytes).1
unfolding handle_request
handle_request-IsValid s db frame bytes h =
    go (ApplicationFragment.decode bytes >>= handle_application db)
  where
    go :
        (x : Result ApplicationFragment)
        → IsValid
            (elim x as (λ x. Handled) [
              | ok response ↦
                  encode_response s frame.source response
                    (direction_eq frame.control.direction outstation_to_master)
              | err e ↦ (err e, s)
              | stuck ↦ (stuck, s)
            ]).1
    go (ok response) = encode_response-IsValid s frame.source response _ h
    go (err e) = h
    go stuck = h

handle_segment-IsValid :
    (s : OutstationSession) (db : Database) (frame : LinkFrame) (segment : TransportSegment)
    → segment.header.sequence < 64
    → IsValid s
    → IsValid (handle_segment s db frame segment).1
unfolding handle_segment
handle_segment-IsValid s db frame segment hseq (hs, (earlier, hr)) =
    go (push segment s.reassembler).0
  where
    s' : OutstationSession
    s' = record s { reassembler = (push segment s.reassembler).1 }

    h' : IsValid s'
    h' = (hs, (segment ∷ earlier, pushed segment hr hseq))

    go :
        (x : Result (Option (List ℕ)))
        → IsValid
            (elim x as (λ x. Handled) [
              | ok (some application_bytes) ↦ handle_request s' db frame application_bytes
              | ok none ↦ (ok [], s')
              | err e ↦ (err e, s')
              | stuck ↦ (stuck, s')
            ]).1
    go (ok (some bytes)) = handle_request-IsValid s' db frame bytes h'
    go (ok none) = h'
    go (err e) = h'
    go stuck = h'

handle_user_data-IsValid :
    (s : OutstationSession) (db : Database) (frame : LinkFrame)
    → IsBytes frame.payload
    → IsValid s
    → IsValid (handle_user_data s db frame).1
unfolding handle_user_data
handle_user_data-IsValid s db frame hb h =
    go (Segment.decode frame.payload) (λ segment e. (decoded-Fits frame.payload segment hb e).0)
  where
    go :
        (x : Result TransportSegment)
        → ((segment : TransportSegment) → x ≡ ok segment → segment.header.sequence < 64)
        → IsValid
            (elim x as (λ x. Handled) [
              | ok segment ↦ handle_segment s db frame segment
              | err e ↦ (err e, s)
              | stuck ↦ (stuck, s)
            ]).1
    go (ok segment) k = handle_segment-IsValid s db frame segment (k segment refl) h
    go (err e) k = h
    go stuck k = h

dispatch-IsValid :
    (s : OutstationSession) (db : Database) (frame : LinkFrame) (function : LinkFunction)
    → IsBytes frame.payload
    → IsValid s
    → IsValid (dispatch s db frame function).1
unfolding dispatch
dispatch-IsValid s db frame (primary PrimaryFunction.reset_link_states) hb (hs, (earlier, hr)) =
    (omega arith, (earlier, cleared hr))
dispatch-IsValid s db frame (primary PrimaryFunction.test_link_states) hb h = h
dispatch-IsValid s db frame (primary PrimaryFunction.request_link_status) hb h = h
dispatch-IsValid s db frame (primary PrimaryFunction.unconfirmed_user_data) hb h =
    handle_user_data-IsValid s db frame hb h
dispatch-IsValid s db frame (primary PrimaryFunction.confirmed_user_data) hb h =
    handle_user_data-IsValid s db frame hb h
dispatch-IsValid s db frame _ hb h = h

-- Every frame whose payload is a byte string, whatever it asks and whether or not it is answered with
-- an error, leaves a valid session valid: its sequence number has six bits, and its reassembler's
-- state comes from pushes and resets.
pub handle_frame-IsValid :
    (s : OutstationSession) (db : Database) (frame : LinkFrame)
    → IsBytes frame.payload
    → IsValid s
    → IsValid (handle_frame s db frame).1
unfolding handle_frame
handle_frame-IsValid s db frame hb h =
    elim (Bool-cases (address_eq frame.destination s.outstation)) [
      | inl mine ↦ rw (mine, handle_frame) (dispatch-IsValid s db frame frame.control.function hb h)
      | inr other ↦ rw (other, handle_frame) h
    ]
