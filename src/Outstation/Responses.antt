-- ===== src/Outstation/Responses.antt =====
-- What the session answers: to whom, and that its frames can be encoded and read back.
use dnp3_rust_lib.Prelude.{
  ℕ, ◌<◌, ◌≡◌, refl, sym, ◌∙◌, Bool, Bool-cases, inl, inr, Option, none, some, List, [], ◌∷◌, All,
  arith,
}
use mathlib.Core.Path.{subst}
use dnp3_rust_lib.Core.Error.{ProtocolError, Result, ok, err, stuck, ◌>>=◌, Result-cases}
use dnp3_rust_lib.Core.Address
use dnp3_rust_lib.Core.Address.{Address, address_eq}
use dnp3_rust_lib.Link.ControlField.{
  LinkFunction, primary, PrimaryFunction, direction_eq, outstation_to_master,
}
use dnp3_rust_lib.Link.LinkFrame
use dnp3_rust_lib.Link.LinkFrame.{LinkFrame}
use dnp3_rust_lib.Link.LinkFrame.RoundTrip as LinkRoundTrip
use dnp3_rust_lib.Transport.Segment
use dnp3_rust_lib.Transport.Segment.{TransportSegment, fragment}
use dnp3_rust_lib.Transport.Segment.Shape.{fragment-Fits}
use dnp3_rust_lib.App.ApplicationFragment
use dnp3_rust_lib.App.ApplicationFragment.{ApplicationFragment}
use dnp3_rust_lib.Transport.Reassembler.{push}
use dnp3_rust_lib.Outstation.{
  Database, OutstationSession, Handled, handle_application, encode_response, handle_request,
  handle_segment, handle_user_data, dispatch, handle_frame,
}
use dnp3_rust_lib.Outstation.Delivers.{IsAnswer, response_frames-Carries, encode_response-ok}

-- What is asked of a handler's result: its frames are answers.
abbrev Answers : Address → Address → Result (List LinkFrame) → Type 0
Answers outstation destination (ok frames) = All (IsAnswer outstation destination) frames
Answers outstation destination (err e) = Unit
Answers outstation destination stuck = Unit

encode_response-err :
    (s : OutstationSession) (destination : Address) (response : ApplicationFragment)
    (tool_style : Bool) {e : ProtocolError}
    → ApplicationFragment.encode response ≡ err e
    → (encode_response s destination response tool_style).0 ≡ err e
unfolding encode_response
encode_response-err s destination response tool_style e = rw (e, encode_response)

encode_response-stuck :
    (s : OutstationSession) (destination : Address) (response : ApplicationFragment)
    (tool_style : Bool)
    → ApplicationFragment.encode response ≡ stuck
    → (encode_response s destination response tool_style).0 ≡ stuck
unfolding encode_response
encode_response-stuck s destination response tool_style e = rw (e, encode_response)

encode_response-Answers :
    (s : OutstationSession) (destination : Address) (response : ApplicationFragment)
    (tool_style : Bool)
    → s.transport_sequence < 64
    → Answers s.outstation destination (encode_response s destination response tool_style).0
encode_response-Answers s destination response tool_style hs =
    elim (Result-cases (ApplicationFragment.encode response)) [
      | inl (bytes, e) ↦
          let (frames, sent, answers, all) =
            response_frames-Carries s destination tool_style (fragment bytes s.transport_sequence)
              (fragment-Fits bytes s.transport_sequence (omega arith)) in
          subst (Answers s.outstation destination)
            (sym (encode_response-ok s destination response tool_style e ∙ sent)) answers
      | inr (inl (x, e)) ↦
          subst (Answers s.outstation destination)
            (sym (encode_response-err s destination response tool_style e)) tt
      | inr (inr e) ↦
          subst (Answers s.outstation destination)
            (sym (encode_response-stuck s destination response tool_style e)) tt
    ]

handle_request-Answers :
    (s : OutstationSession) (db : Database) (frame : LinkFrame) (bytes : List ℕ)
    → s.transport_sequence < 64
    → Answers s.outstation frame.source (handle_request s db frame bytes).0
unfolding handle_request
handle_request-Answers s db frame bytes h =
    go (ApplicationFragment.decode bytes >>= handle_application db)
  where
    go :
        (x : Result ApplicationFragment)
        → Answers s.outstation frame.source
            (elim x as (λ x. Handled) [
              | ok response ↦
                  encode_response s frame.source response
                    (direction_eq frame.control.direction outstation_to_master)
              | err e ↦ (err e, s)
              | stuck ↦ (stuck, s)
            ]).0
    go (ok response) = encode_response-Answers s frame.source response _ h
    go (err e) = tt
    go stuck = tt

handle_segment-Answers :
    (s : OutstationSession) (db : Database) (frame : LinkFrame) (segment : TransportSegment)
    → s.transport_sequence < 64
    → Answers s.outstation frame.source (handle_segment s db frame segment).0
unfolding handle_segment
handle_segment-Answers s db frame segment h = go (push segment s.reassembler).0
  where
    s' : OutstationSession
    s' = record s { reassembler = (push segment s.reassembler).1 }

    go :
        (x : Result (Option (List ℕ)))
        → Answers s.outstation frame.source
            (elim x as (λ x. Handled) [
              | ok (some application_bytes) ↦ handle_request s' db frame application_bytes
              | ok none ↦ (ok [], s')
              | err e ↦ (err e, s')
              | stuck ↦ (stuck, s')
            ]).0
    go (ok (some bytes)) = handle_request-Answers s' db frame bytes h
    go (ok none) = tt
    go (err e) = tt
    go stuck = tt

handle_user_data-Answers :
    (s : OutstationSession) (db : Database) (frame : LinkFrame)
    → s.transport_sequence < 64
    → Answers s.outstation frame.source (handle_user_data s db frame).0
unfolding handle_user_data
handle_user_data-Answers s db frame h = go (Segment.decode frame.payload)
  where
    go :
        (x : Result TransportSegment)
        → Answers s.outstation frame.source
            (elim x as (λ x. Handled) [
              | ok segment ↦ handle_segment s db frame segment
              | err e ↦ (err e, s)
              | stuck ↦ (stuck, s)
            ]).0
    go (ok segment) = handle_segment-Answers s db frame segment h
    go (err e) = tt
    go stuck = tt

acked :
    (outstation destination : Address) (fcb : Bool) (handled : Result (List LinkFrame))
    → Answers outstation destination handled
    → Answers outstation destination
        (handled >>= λ frames. ok (LinkFrame.ack_with_fcb destination outstation fcb ∷ frames))
unfolding LinkFrame.ack_with_fcb
acked outstation destination fcb (ok frames) h = ((refl, refl, omega arith), h)
acked outstation destination fcb (err e) h = tt
acked outstation destination fcb stuck h = tt

dispatch-Answers :
    (s : OutstationSession) (db : Database) (frame : LinkFrame) (function : LinkFunction)
    → s.transport_sequence < 64
    → Answers s.outstation frame.source (dispatch s db frame function).0
unfolding dispatch LinkFrame.legacy_ack LinkFrame.legacy_ack_with_fcb LinkFrame.ack
    LinkFrame.ack_with_fcb LinkFrame.link_status
dispatch-Answers s db frame (primary PrimaryFunction.reset_link_states) h =
    elim (Bool-cases (direction_eq frame.control.direction outstation_to_master)) [
      | inl tool ↦ rw tool ((refl, refl, omega arith), tt)
      | inr plain ↦ rw plain ((refl, refl, omega arith), tt)
    ]
dispatch-Answers s db frame (primary PrimaryFunction.test_link_states) h =
    ((refl, refl, omega arith), tt)
dispatch-Answers s db frame (primary PrimaryFunction.request_link_status) h =
    ((refl, refl, omega arith), tt)
dispatch-Answers s db frame (primary PrimaryFunction.unconfirmed_user_data) h =
    handle_user_data-Answers s db frame h
dispatch-Answers s db frame (primary PrimaryFunction.confirmed_user_data) h =
    acked s.outstation frame.source frame.control.fcb (handle_user_data s db frame).0
      (handle_user_data-Answers s db frame h)
dispatch-Answers s db frame _ h = tt

handle_frame-Answers :
    (s : OutstationSession) (db : Database) (frame : LinkFrame)
    → s.transport_sequence < 64
    → Answers s.outstation frame.source (handle_frame s db frame).0
unfolding handle_frame
handle_frame-Answers s db frame h = elim (Bool-cases (address_eq frame.destination s.outstation)) [
  | inl mine ↦ rw (mine, handle_frame) (dispatch-Answers s db frame frame.control.function h)
  | inr other ↦ rw (other, handle_frame) tt
]

-- A frame that goes back from `outstation` to `destination`, and that its receiver reads as it is.
abbrev pub IsReadable : Address → Address → LinkFrame → Type 0
IsReadable outstation destination f =
    (f.source ≡ outstation)
    × (f.destination ≡ destination)
    × (LinkFrame.decode (LinkFrame.encode f) ≡ ok f)

readable :
    (outstation destination : Address) (frames : List LinkFrame)
    → Address.IsValid outstation
    → Address.IsValid destination
    → All (IsAnswer outstation destination) frames
    → All (IsReadable outstation destination) frames
readable outstation destination [] ho hd h = tt
readable outstation destination (f ∷ fs) ho hd ((es, ed, hp), hs) = (
  (
    es,
    ed,
    LinkRoundTrip.decode-encode_frame f (record {
      destination = subst Address.IsValid (sym ed) hd;
      source = subst Address.IsValid (sym es) ho;
      payload = hp;
    }),
  ),
  readable outstation destination fs ho hd hs,
)

-- Whatever frame a session handles, each frame that it answers with goes from its own address to the
-- frame's source, and its bytes decode to it again, given that both addresses are u16s and that the
-- transport sequence number has six bits, as it has in every valid session.
pub handle_frame-IsReadable :
    (s : OutstationSession) (db : Database) (frame : LinkFrame) {frames : List LinkFrame}
    → s.transport_sequence < 64
    → Address.IsValid s.outstation
    → Address.IsValid frame.source
    → (handle_frame s db frame).0 ≡ ok frames
    → All (IsReadable s.outstation frame.source) frames
handle_frame-IsReadable s db frame {frames} h ho hd e =
    readable s.outstation frame.source frames ho hd
      (subst (Answers s.outstation frame.source) e (handle_frame-Answers s db frame h))
