-- ===== src/Master/Exchange.antt =====
-- A master's request at the outstation behind the loopback.
use dnp3_rust_lib.Prelude.{
  ℕ, zero, suc, ◌≡◌, sym, ap, ◌∙◌, none, some, List, [], ◌∷◌, ◌++◌, append-nil, All, map, ==_refl,
}
use dnp3_rust_lib.Core.Error
use dnp3_rust_lib.Core.Error.{Result}
use dnp3_rust_lib.Core.Fallible.{ok}
use dnp3_rust_lib.Link.ControlField.{primary_control}
use dnp3_rust_lib.Link.LinkFrame.{LinkFrame}
use dnp3_rust_lib.Transport.Segment.{TransportSegment}
use dnp3_rust_lib.Transport.Segment.Shape.{Fits}
use dnp3_rust_lib.Transport.Segment.Codes as SegmentCodes
use dnp3_rust_lib.Transport.Reassembler.{Reassembler, push, push_all}
use dnp3_rust_lib.Transport.Reassembler.Delivers.{waits_then}
use dnp3_rust_lib.Outstation.{
  Database, OutstationSession, handle_frame, dispatch, handle_user_data, handle_segment,
  handle_request,
}
use dnp3_rust_lib.Master.{MasterConfig}
use dnp3_rust_lib.Master.Sends.{request_of, Accepts, over, accepted}
use dnp3_rust_lib.Master.Receives.{push_all-cons, push_all-nil, push_all-ne-nil, waits_then-ne-nil}
use dnp3_rust_lib.Master.Loopback.{loopback, send_frame, answered}

module _ (db : Database) (config : MasterConfig) where
  module _ (s : OutstationSession) (mine : config.outstation ≡ s.outstation)
      (segment : TransportSegment) (h : Fits segment) where
    handle_frame-segment :
        handle_frame s db (request_of config segment)
        ≡ handle_segment s db (request_of config segment) segment
    unfolding handle_frame dispatch handle_user_data primary_control
    handle_frame-segment = rw (
      mine,
      handle_frame,
      ==_refl s.outstation.value,
      handle_user_data,
      SegmentCodes.decode-encode_segment segment h.0 h.1,
    )

    handle_frame-waits :
        {r : Reassembler}
        → push segment s.reassembler ≡ (Error.ok none, r)
        → handle_frame s db (request_of config segment)
          ≡ (Error.ok [], record s { reassembler = r })
    unfolding handle_segment
    handle_frame-waits e = handle_frame-segment ∙ rw (e, handle_segment, e)

    handle_frame-completes :
        {bytes : List ℕ} {r : Reassembler}
        → push segment s.reassembler ≡ (Error.ok (some bytes), r)
        → handle_frame s db (request_of config segment)
          ≡ handle_request (record s { reassembler = r }) db (request_of config segment) bytes
    unfolding handle_segment handle_request
    handle_frame-completes e = handle_frame-segment ∙ rw (e, handle_segment, e)

  pub send_frame-answered :
      (s s' : OutstationSession) (queue : List LinkFrame) (frame : LinkFrame)
      {frames : List LinkFrame}
      → handle_frame s db frame ≡ (Error.ok frames, s')
      → send_frame db frame (record { session = s; queue = queue })
        ≡ (ok tt, record { session = s'; queue = queue ++ frames })
  unfolding send_frame
  send_frame-answered s s' queue frame e = ap (answered queue) e

  send_frame-silent :
      (s s' : OutstationSession) (queue : List LinkFrame) (frame : LinkFrame)
      → handle_frame s db frame ≡ (Error.ok [], s')
      → send_frame db frame (record { session = s; queue = queue })
        ≡ (ok tt, record { session = s'; queue = queue })
  send_frame-silent s s' queue frame e = send_frame-answered s s' queue frame e ∙ λ i.
      (ok tt, record { session = s'; queue = append-nil queue i })

  -- The outstation takes the frames of a request, keeps still until the last one, and answers that.
  pub loopback-Accepts :
      (segments : List TransportSegment) (s s' : OutstationSession) (queue answers : List LinkFrame)
      (n : ℕ) (bytes : List ℕ) (r : Reassembler)
      → config.outstation ≡ s.outstation
      → All Fits segments
      → push_all segments s.reassembler ≡ (waits_then n bytes, r)
      → ((segment : TransportSegment)
          → handle_request (record s { reassembler = r }) db (request_of config segment) bytes
            ≡ (Error.ok answers, s'))
      → Accepts
          (loopback db)
          (record { session = s; queue = queue })
          (map (request_of config) segments)
          (record { session = s'; queue = queue ++ answers })
  loopback-Accepts [] s s' queue answers n bytes r mine h hp hr =
      absurd (waits_then-ne-nil n bytes (ap (λ p. p.0) (sym hp ∙ push_all-nil s.reassembler)))
  loopback-Accepts (segment ∷ []) s s' queue answers zero bytes r mine (h, hs) hp hr =
      let (first, after) = push_all-cons segment [] s.reassembler r _ _ hp in
      let ended : (push segment s.reassembler).1 ≡ r =
        ap (λ p. p.1) (sym (push_all-nil (push segment s.reassembler).1) ∙ after) in
      accepted
        (send_frame-answered s s' queue (request_of config segment) (
          handle_frame-completes s mine segment h (first ∙ λ i. (Error.ok (some bytes), ended i))
          ∙ hr segment))
        over
  loopback-Accepts (segment ∷ []) s s' queue answers (suc n) bytes r mine (h, hs) hp hr =
      let (first, after) = push_all-cons segment [] s.reassembler r _ _ hp in
      absurd (
        waits_then-ne-nil n bytes
          (ap (λ p. p.0) (sym after ∙ push_all-nil (push segment s.reassembler).1)))
  loopback-Accepts (segment ∷ t ∷ ts) s s' queue answers zero bytes r mine (h, hs) hp hr =
      let (first, after) = push_all-cons segment (t ∷ ts) s.reassembler r _ _ hp in
      absurd (push_all-ne-nil t ts (push segment s.reassembler).1 (ap (λ p. p.0) after))
  loopback-Accepts (segment ∷ t ∷ ts) s s' queue answers (suc n) bytes r mine (h, hs) hp hr =
      let (first, after) = push_all-cons segment (t ∷ ts) s.reassembler r _ _ hp in
      accepted
        (send_frame-silent s (record s { reassembler = (push segment s.reassembler).1 }) queue
          (request_of config segment) (handle_frame-waits s mine segment h first))
        (loopback-Accepts (t ∷ ts) (record s { reassembler = (push segment s.reassembler).1 }) s'
          queue answers n bytes r mine hs after hr)
