-- ===== src/Master/Poll.antt =====
-- An integrity poll of an outstation, from the master's request to the response it returns.
use dnp3_rust_lib.Prelude.{ℕ, suc, ◌+◌, ◌%◌, ◌<◌, ◌≤◌, ◌≡◌, sym, ◌∙◌, Bool, [], length, arith}
use dnp3_rust_lib.Prelude.Masks.{and_3f}
use dnp3_rust_lib.Core.Fallible.{ok}
use dnp3_rust_lib.Link.ControlField.{direction_eq, outstation_to_master}
use dnp3_rust_lib.Transport.Segment.{fragment}
use dnp3_rust_lib.Transport.Reassembler
use dnp3_rust_lib.Transport.Reassembler.{Reassembler, push_all}
use dnp3_rust_lib.App.ApplicationFragment.{ApplicationFragment}
use dnp3_rust_lib.App.ApplicationFragment.RoundTrip as FragmentRoundTrip
use dnp3_rust_lib.App.ApplicationFragment.RoundTrip.{decode-encode_fragment}
use dnp3_rust_lib.Outstation.{Database, OutstationSession, encode_response}
use dnp3_rust_lib.Outstation.Application.{Fits, handle_application-IsValid}
use dnp3_rust_lib.Outstation.Invariant.{encode_response-IsValid}
use dnp3_rust_lib.Transport.Reassembler.Sound.{start}
use dnp3_rust_lib.Outstation.Delivers.{encode_response-delivers}
use dnp3_rust_lib.Master.{MasterSession, poll_request, integrity_poll}
use dnp3_rust_lib.Master.Sends.{style_direction}
use dnp3_rust_lib.Master.Loopback.{loopback}
use dnp3_rust_lib.Master.Requests.{
  snapshot, poll_request-IsValid, handle_application-poll, handle_request-ok,
  encode_response-outstation,
}
use dnp3_rust_lib.Master.Answer.{polled, poll-exchange}

-- A master and an outstation that can speak to each other: the poll's address is the outstation's,
-- and the sequence numbers are in range.
pub record Ready (m : MasterSession) (s : OutstationSession) : Type 0 where
  pub mine : m.config.outstation ≡ s.outstation
  pub transport : m.transport_sequence < 64
  pub application : m.app_sequence < 16
  pub remote : s.transport_sequence < 64

module _ (db : Database) (m : MasterSession) (s : OutstationSession) where
  polled-Ready :
      (count : ℕ) (response : ApplicationFragment) (tool_style : Bool)
      → Ready m s
      → Ready
          (polled m count)
          (encode_response
            (record s { reassembler = Reassembler.new })
            m.config.master
            response
            tool_style).1
  polled-Ready count response tool_style ready = record {
    mine =
        ready.mine
        ∙ sym (
            encode_response-outstation (record s { reassembler = Reassembler.new }) m.config.master
              response tool_style);
    transport = omega (arith, and_3f ((m.transport_sequence + count % 256) % 256));
    application = omega arith;
    remote =
        (encode_response-IsValid (record s { reassembler = Reassembler.new }) m.config.master
          response tool_style (ready.remote, ([], start))).0;
  }

  -- When the sessions are ready and every list of the database makes a valid object, an integrity poll
  -- over a loopback whose queue is empty returns the binary inputs, the binary outputs, the analog
  -- inputs, the analog outputs and the counters of the database, in this order and each list that is not
  -- empty, under the poll's sequence number, as soon as it is allowed enough rounds. It leaves the queue
  -- empty and the sessions ready again, and the master has counted the poll and moved on to the next
  -- sequence number.
  pub poll-answers :
      Ready m s
      → Fits db
      → (rounds : ℕ) × (count : ℕ) × (s' : OutstationSession) × ((fuel : ℕ)
          → rounds ≤ fuel
          → integrity_poll (loopback db) fuel (m, record { session = s; queue = [] }) ≡ (
            ok (snapshot db m.app_sequence),
            (polled m count, record { session = s'; queue = [] }),
          ))
        × Ready (polled m count) s'
  poll-answers ready fits =
      let request : ApplicationFragment = poll_request m.config.link_style m.app_sequence in
      let valid : FragmentRoundTrip.IsValid request =
        poll_request-IsValid m.config.link_style m.app_sequence ready.application in
      let (bytes, encoded, decoded) = decode-encode_fragment request valid in
      let handled =
        handle_application-poll db m.config.link_style m.app_sequence ready.application in
      let fresh : OutstationSession = record s { reassembler = Reassembler.new } in
      let tool_style : Bool =
        direction_eq (style_direction m.config.link_style) outstation_to_master in
      let (frames, reply, segments, sent, answers, carried, complete, replied) =
        encode_response-delivers fresh m.config.master (snapshot db m.app_sequence) tool_style
          ready.remote
          (handle_application-IsValid db request fits (omega (arith, valid.0)) handled) in
      let s' : OutstationSession =
        (encode_response fresh m.config.master (snapshot db m.app_sequence) tool_style).1 in
      let count : ℕ = length (fragment bytes m.transport_sequence) in
      (
        suc (length frames),
        count,
        s',
        (λ fuel enough.
            poll-exchange db m s bytes reply frames segments _ s' fuel ready.mine ready.transport
              ready.application encoded
              (λ segment. handle_request-ok db fresh m.config segment bytes decoded handled ∙ λ i.
                (sent i, s'))
              answers carried complete replied enough),
        polled-Ready count (snapshot db m.app_sequence) tool_style ready,
      )
