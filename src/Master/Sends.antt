-- ===== src/Master/Sends.antt =====
-- What `send_application` puts on a channel.
use dnp3_rust_lib.Prelude.{
  ℕ, ◌+◌, ◌%◌, ◌<◌, ◌≡◌, refl, ◌∙◌, bit_and, false, List, [], ◌∷◌, All, map, length, arith,
}
use dnp3_rust_lib.Core.Error.{Result}
use dnp3_rust_lib.Core.Error
use dnp3_rust_lib.Core.Fallible.{ok, >>=-of_ok}
use dnp3_rust_lib.Core.Address.{Address}
use dnp3_rust_lib.Link.ControlField.{
  Direction, master_to_outstation, outstation_to_master, primary_control, PrimaryFunction,
}
use dnp3_rust_lib.Link.LinkFrame
use dnp3_rust_lib.Link.LinkFrame.{LinkFrame}
use dnp3_rust_lib.Transport.Segment
use dnp3_rust_lib.Transport.Segment.{TransportSegment, fragment}
use dnp3_rust_lib.Transport.Segment.Shape.{Fits, fragment-Fits}
use dnp3_rust_lib.App.ApplicationFragment
use dnp3_rust_lib.App.ApplicationFragment.{ApplicationFragment}
use dnp3_rust_lib.Outstation.Delivers.{new-ok}
use dnp3_rust_lib.Master.{
  MasterChannel, MasterSession, MasterConfig, LinkStyle, standard, tool, on_channel, request_frame,
  send_segments, send_application,
}

-- The direction that a master of each style writes on its requests.
abbrev pub style_direction : LinkStyle → Direction
style_direction standard = master_to_outstation
style_direction tool = outstation_to_master

-- The frame of a segment, by its parts.
abbrev pub request_of : MasterConfig → TransportSegment → LinkFrame
request_of config segment = record {
  control =
      primary_control (style_direction config.link_style) PrimaryFunction.unconfirmed_user_data
        false false;
  destination = config.outstation;
  source = config.master;
  payload = Segment.encode segment;
}

request_frame-ok :
    (master outstation : Address) (style : LinkStyle) (segment : TransportSegment)
    → Fits segment
    → let config : MasterConfig = record {
      master = master;
      outstation = outstation;
      link_style = style;
    } in
      request_frame config segment ≡ Error.ok (request_of config segment)
unfolding request_frame LinkFrame.unconfirmed_user_data LinkFrame.tool_unconfirmed_user_data
request_frame-ok master outstation standard segment (hs, hp) =
    new-ok master outstation _ (Segment.encode segment) (unfold Segment.encode in omega arith)
request_frame-ok master outstation tool segment (hs, hp) =
    new-ok master outstation _ (Segment.encode segment) (unfold Segment.encode in omega arith)

-- The session after it has sent `count` segments.
abbrev pub sent_session : MasterSession → ℕ → MasterSession
sent_session m count = record m {
  transport_sequence = bit_and ((m.transport_sequence + count % 256) % 256) 0x3f;
}

module _ (C : MasterChannel) where
  -- A channel that takes these frames, one for each send.
  pub data Accepts : C.State → List LinkFrame → C.State → Type 0 where
    over : {c : C.State} → Accepts c [] c
    accepted :
        {c c1 c' : C.State} {frame : LinkFrame} {frames : List LinkFrame}
        → C.send_frame frame c ≡ (ok tt, c1)
        → Accepts c1 frames c'
        → Accepts c (frame ∷ frames) c'

  send_segments-Accepts :
      (m : MasterSession) (segments : List TransportSegment) (c c' : C.State)
      → All Fits segments
      → Accepts c (map (request_of m.config) segments) c'
      → send_segments C segments (m, c) ≡ (ok tt, (m, c'))
  unfolding send_segments
  send_segments-Accepts m [] c c' h over = refl
  send_segments-Accepts m (segment ∷ rest) c c' (h, hs) (accepted {c1 = c1} e taken) =
      rw (request_frame-ok m.config.master m.config.outstation m.config.link_style segment h) (
        >>=-of_ok (on_channel C (C.send_frame (request_of m.config segment)))
          (λ _. send_segments C rest) (m, c) (λ i. ((e i).0, (m, (e i).1)))
        ∙ send_segments-Accepts m rest c1 c' hs taken)

  -- On a channel that takes them, `send_application` sends one frame for each segment of the
  -- fragment's bytes, in their order, from the master to the outstation, and counts the segments in
  -- its six-bit sequence number.
  pub send_application-Accepts :
      (m : MasterSession) (f : ApplicationFragment) (bytes : List ℕ) (c c' : C.State)
      → m.transport_sequence < 64
      → ApplicationFragment.encode f ≡ Error.ok bytes
      → Accepts c (map (request_of m.config) (fragment bytes m.transport_sequence)) c'
      → send_application C f (m, c)
        ≡ (ok tt, (sent_session m (length (fragment bytes m.transport_sequence)), c'))
  unfolding send_application
  send_application-Accepts m f bytes c c' hm e taken = rw (e) (
      send_segments-Accepts (sent_session m (length (fragment bytes m.transport_sequence)))
        (fragment bytes m.transport_sequence) c c'
        (fragment-Fits bytes m.transport_sequence (omega arith)) taken)
