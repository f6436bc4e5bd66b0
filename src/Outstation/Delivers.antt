-- ===== src/Outstation/Delivers.antt =====
-- How a response travels: in frames that carry the segments of its bytes.
use dnp3_rust_lib.Prelude.{
  ℕ, ◌+◌, ◌-◌, ◌<◌, ◌≤◌, ◌≡◌, refl, ◌∙◌, Bool, true, false, List, [], ◌∷◌, All, length, arith,
  le→ltb,
}
use dnp3_rust_lib.Prelude.Chunks.{chunks}
use dnp3_rust_lib.Core.Error.{Result, ok, ◌>>=◌}
use dnp3_rust_lib.Core.Address.{Address}
use dnp3_rust_lib.Link.ControlField.{ControlField}
use dnp3_rust_lib.Link.LinkFrame
use dnp3_rust_lib.Link.LinkFrame.{LinkFrame}
use dnp3_rust_lib.Transport.Segment
use dnp3_rust_lib.Transport.Segment.{TransportSegment, fragment}
use dnp3_rust_lib.Transport.Segment.Shape.{Fits, fragment-Fits}
use dnp3_rust_lib.Transport.Segment.Codes as SegmentCodes
use dnp3_rust_lib.App.ApplicationFragment
use dnp3_rust_lib.App.ApplicationFragment.{ApplicationFragment}
use dnp3_rust_lib.App.ApplicationFragment.RoundTrip as FragmentRoundTrip
use dnp3_rust_lib.App.ApplicationFragment.RoundTrip.{decode-encode_fragment}
use dnp3_rust_lib.Transport.Reassembler
use dnp3_rust_lib.Transport.Reassembler.{Reassembler, push, push_all}
use dnp3_rust_lib.Transport.Reassembler.Delivers.{waits_then, push_all-fragment}
use dnp3_rust_lib.Outstation.{OutstationSession, encode_response, response_frame, response_frames}

-- A frame from the outstation to `destination`, whose payload fits the length field.
abbrev pub IsAnswer : Address → Address → LinkFrame → Type 0
IsAnswer outstation destination f =
    (f.source ≡ outstation) × (f.destination ≡ destination) × (length f.payload ≤ 250)

-- A frame that carries a segment.
abbrev Carries : Address → Address → TransportSegment → LinkFrame → Type 0
Carries outstation destination segment f =
    IsAnswer outstation destination f × (Segment.decode f.payload ≡ ok segment)

module _ (outstation destination : Address) (control : ControlField) where
  pub new-ok :
      (payload : List ℕ)
      → length payload ≤ 250
      → LinkFrame.new control destination outstation payload
        ≡ ok (record {
          control = control;
          destination = destination;
          source = outstation;
          payload = payload;
        })
  unfolding LinkFrame.new
  new-ok payload h = rw (le→ltb 255 (length payload + 5) (omega arith))

  new-Carries :
      (segment : TransportSegment)
      → Fits segment
      → (f : LinkFrame) × (LinkFrame.new control destination outstation (Segment.encode segment)
          ≡ ok f)
        × Carries outstation destination segment f
  new-Carries segment (hs, hp) = (
    _,
    new-ok (Segment.encode segment) (unfold Segment.encode in omega arith),
    (
      (refl, refl, unfold Segment.encode in omega arith),
      SegmentCodes.decode-encode_segment segment hs hp,
    ),
  )

response_frame-Carries :
    (s : OutstationSession) (destination : Address) (tool_style : Bool) (segment : TransportSegment)
    → Fits segment
    → (f : LinkFrame) × (response_frame s destination tool_style segment ≡ ok f)
      × Carries s.outstation destination segment f
unfolding response_frame LinkFrame.unconfirmed_user_data LinkFrame.outstation_unconfirmed_user_data
response_frame-Carries s destination true segment h =
    new-Carries s.outstation destination _ segment h
response_frame-Carries s destination false segment h =
    new-Carries s.outstation destination _ segment h

-- The segments in the payloads of the frames.
abbrev pub received : List LinkFrame → Result (List TransportSegment)
received [] = ok []
received (f ∷ fs) =
    Segment.decode f.payload >>= λ segment. received fs >>= λ segments. ok (segment ∷ segments)

pub response_frames-Carries :
    (s : OutstationSession) (destination : Address) (tool_style : Bool)
    (segments : List TransportSegment)
    → All Fits segments
    → (frames : List LinkFrame) × (response_frames s destination tool_style segments ≡ ok frames)
      × All (IsAnswer s.outstation destination) frames
      × (received frames ≡ ok segments)
unfolding response_frames
response_frames-Carries s destination tool_style [] h = ([], refl, tt, refl)
response_frames-Carries s destination tool_style (segment ∷ rest) (h, hs) =
    let (f, e, (answer, carried)) = response_frame-Carries s destination tool_style segment h in
    let (fs, es, answers, all) = response_frames-Carries s destination tool_style rest hs in
    (f ∷ fs, rw (e, es), (answer, answers), rw (carried, all))

pub encode_response-ok :
    (s : OutstationSession) (destination : Address) (response : ApplicationFragment)
    (tool_style : Bool) {bytes : List ℕ}
    → ApplicationFragment.encode response ≡ ok bytes
    → (encode_response s destination response tool_style).0
      ≡ response_frames s destination tool_style (fragment bytes s.transport_sequence)
unfolding encode_response
encode_response-ok s destination response tool_style e = rw (e, encode_response)

-- A response that is valid as a fragment is always sent, in frames from the outstation to the
-- requester, when the session's sequence number has six bits. The receiver that decodes the payloads
-- and pushes the segments in turn, whatever its reassembler was doing before, completes bytes that
-- decode to the response, at the last of the segments that carry up to 249 bytes each, and not before.
pub encode_response-delivers :
    (s : OutstationSession) (destination : Address) (response : ApplicationFragment)
    (tool_style : Bool)
    → s.transport_sequence < 64
    → FragmentRoundTrip.IsValid response
    → (frames : List LinkFrame) × (bytes : List ℕ) × (segments : List TransportSegment)
      × ((encode_response s destination response tool_style).0 ≡ ok frames)
      × All (IsAnswer s.outstation destination) frames
      × (received frames ≡ ok segments)
      × ((r : Reassembler)
          → push_all segments r
            ≡ (waits_then (length (chunks 249 bytes) - 1) bytes, Reassembler.new))
      × (ApplicationFragment.decode bytes ≡ ok response)
encode_response-delivers s destination response tool_style hs v =
    let (bytes, encoded, decoded) = decode-encode_fragment response v in
    let (frames, sent, answers, all) =
      response_frames-Carries s destination tool_style (fragment bytes s.transport_sequence)
        (fragment-Fits bytes s.transport_sequence (omega arith)) in
    (
      frames,
      bytes,
      fragment bytes s.transport_sequence,
      encode_response-ok s destination response tool_style encoded ∙ sent,
      answers,
      all,
      push_all-fragment bytes s.transport_sequence,
      decoded,
    )
