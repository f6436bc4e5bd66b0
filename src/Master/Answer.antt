-- ===== src/Master/Answer.antt =====
-- An integrity poll over a loopback, from the bytes of its request to the response it returns.
use dnp3_rust_lib.Prelude.{
  ℕ, zero, suc, ◌+◌, ◌%◌, ◌^◌, ◌<◌, ◌≡◌, refl, ap, ◌∙◌, true, bit_and, List, [], ◌∷◌, All, map,
  length, arith,
}
use dnp3_rust_lib.Prelude.Masks.{and_0f}
use dnp3_rust_lib.Core.Error
use dnp3_rust_lib.Core.Error.{Result, Result-cases}
use dnp3_rust_lib.Core.Fallible.{ok, from_result, >>=-of_ok}
use dnp3_rust_lib.Core.Address.{Address}
use dnp3_rust_lib.Link.LinkFrame.{LinkFrame}
use dnp3_rust_lib.Transport.Segment.{TransportSegment, fragment}
use dnp3_rust_lib.Transport.Segment.Shape.{fragment-Fits}
use dnp3_rust_lib.Transport.Reassembler
use dnp3_rust_lib.Transport.Reassembler.{Reassembler, push_all}
use dnp3_rust_lib.Transport.Reassembler.Delivers.{waits_then, push_all-fragment}
use dnp3_rust_lib.App.ApplicationFragment
use dnp3_rust_lib.App.ApplicationFragment.{
  ApplicationFragment, simulator_class_scan, integrity_poll_request,
}
use dnp3_rust_lib.Outstation.{Database, OutstationSession, handle_request}
use dnp3_rust_lib.Outstation.Delivers.{received, IsAnswer}
use dnp3_rust_lib.Master.{
  settle, MasterChannel, MasterSession, protocol, poll_request, next_app_sequence, reset_transport,
  is_response, send_integrity_poll, receive_application, await_response, integrity_poll,
}
use dnp3_rust_lib.Master.Sends.{request_of, Accepts, sent_session, send_application-Accepts}
use dnp3_rust_lib.Master.Receives.{pushed-Carried, Offers, over, offered, receive-Carried}
use dnp3_rust_lib.Master.Loopback.{Loopback, loopback, receive_frame}
use dnp3_rust_lib.Master.Exchange.{loopback-Accepts}
use dnp3_rust_lib.Master.Requests.{snapshot}

module _ (C : MasterChannel) where
  await_response-done :
      (fuel : ℕ) (m m' : MasterSession) (c c' : C.State) {response : ApplicationFragment}
      → receive_application C (suc fuel) (m, c) ≡ (ok response, (m', c'))
      → is_response response.function ≡ true
      → await_response C (suc fuel) (m, c) ≡ (ok response, (m', c'))
  unfolding await_response reset_transport
  await_response-done fuel m m' c c' {response} e h =
      >>=-of_ok (receive_application C (suc fuel)) (settle C (await_response C fuel)) (m, c) e
      ∙ (rw (h) (refl {a = (ok response, (m', c'))}))

addressed :
    (outstation master : Address) (frames : List LinkFrame)
    → All (IsAnswer outstation master) frames
    → All (λ (f : LinkFrame). f.destination ≡ master) frames
addressed outstation master [] h = tt
addressed outstation master (f ∷ fs) ((hs, hd, hp), rest) =
    (hd, addressed outstation master fs rest)

-- What a queue holds, its receives give.
Offers-queue :
    (db : Database) (s : OutstationSession) (queue : List LinkFrame)
    → Offers
        (loopback db)
        (record { session = s; queue = queue })
        queue
        (record { session = s; queue = [] })
unfolding receive_frame
Offers-queue db s [] = over
Offers-queue db s (frame ∷ rest) = offered refl (Offers-queue db s rest)

-- The master after a poll whose request took `count` segments and whose response is complete.
abbrev pub polled : MasterSession → ℕ → MasterSession
polled m count = record (sent_session m count) {
  app_sequence = (m.app_sequence + 1) % 16;
  polls_sent = (m.polls_sent + 1) % 2 ^ 64;
  reassembler = Reassembler.new;
}

module _ (db : Database) (m : MasterSession) (s : OutstationSession) where
  -- The channel before a poll.
  abbrev idle : Loopback
  idle = record { session = s; queue = [] }

  -- The master when it sends the request.
  abbrev asking : MasterSession
  asking = record m {
    reassembler = Reassembler.reset m.reassembler;
    app_sequence = bit_and ((m.app_sequence + 1) % 256) 0x0f;
    polls_sent = (m.polls_sent + 1) % 2 ^ 64;
  }

  send_integrity_poll-Accepts :
      (bytes : List ℕ) (c : Loopback)
      → m.transport_sequence < 64
      → ApplicationFragment.encode (poll_request m.config.link_style m.app_sequence)
        ≡ Error.ok bytes
      → Accepts
          (loopback db)
          idle
          (map (request_of m.config) (fragment bytes m.transport_sequence))
          c
      → send_integrity_poll (loopback db) (reset_transport m, idle)
        ≡ (ok tt, (sent_session asking (length (fragment bytes m.transport_sequence)), c))
  unfolding send_integrity_poll reset_transport next_app_sequence
  send_integrity_poll-Accepts bytes c h encoded taken =
      send_application-Accepts (loopback db) asking
        (poll_request m.config.link_style m.app_sequence) bytes idle c h encoded taken

  polled-asking :
      (count : ℕ)
      → m.app_sequence < 16
      → record (sent_session asking count) { reassembler = Reassembler.new } ≡ polled m count
  polled-asking count h =
      ap (λ n. record (polled m count) { app_sequence = n })
        (and_0f ((m.app_sequence + 1) % 256) (omega arith) ∙ omega arith)

  -- The poll is answered, given the request's bytes and the answer to them.
  pub poll-exchange :
      (bytes reply : List ℕ) (frames : List LinkFrame) (segments : List TransportSegment) (n : ℕ)
      (s' : OutstationSession) (fuel : ℕ)
      → m.config.outstation ≡ s.outstation
      → m.transport_sequence < 64
      → m.app_sequence < 16
      → ApplicationFragment.encode (poll_request m.config.link_style m.app_sequence)
        ≡ Error.ok bytes
      → ((segment : TransportSegment)
          → handle_request
              (record s { reassembler = Reassembler.new })
              db
              (request_of m.config segment)
              bytes
            ≡ (Error.ok frames, s'))
      → All (IsAnswer s.outstation m.config.master) frames
      → received frames ≡ Error.ok segments
      → ((r : Reassembler) → push_all segments r ≡ (waits_then n reply, Reassembler.new))
      → ApplicationFragment.decode reply ≡ Error.ok (snapshot db m.app_sequence)
      → length frames < fuel
      → integrity_poll (loopback db) fuel (m, idle) ≡ (
        ok (snapshot db m.app_sequence),
        (
          polled m (length (fragment bytes m.transport_sequence)),
          record { session = s'; queue = [] },
        ),
      )
  unfolding integrity_poll
  poll-exchange bytes reply frames segments n s' zero mine hm ha encoded handled answers carried
        complete decoded enough =
      absurd (omega arith)
  poll-exchange bytes reply frames segments n s' (suc fuel) mine hm ha encoded handled answers
        carried complete decoded enough =
      let C : MasterChannel = loopback db in
      let count : ℕ = length (fragment bytes m.transport_sequence) in
      let waiting : MasterSession = sent_session asking count in
      let before : Loopback = record { session = s'; queue = frames } in
      let after : Loopback = record { session = s'; queue = [] } in
      let taken : Accepts C idle (map (request_of m.config) (fragment bytes m.transport_sequence))
          before =
        loopback-Accepts db m.config (fragment bytes m.transport_sequence) s s' [] frames _ bytes
          Reassembler.new mine (fragment-Fits bytes m.transport_sequence (omega arith))
          (push_all-fragment bytes m.transport_sequence s.reassembler) handled in
      let heard : receive_application C (suc fuel) (waiting, before) ≡ (
        ok (snapshot db m.app_sequence),
        (record waiting { reassembler = Reassembler.new }, after),
      ) =
        receive-Carried C (suc fuel) waiting before after
          (pushed-Carried m.config.master waiting.reassembler Reassembler.new frames segments n
            reply (addressed s.outstation m.config.master frames answers) carried
            (complete waiting.reassembler))
          (Offers-queue db s' frames) (omega arith)
        ∙ ap
            (λ x.
              (from_result protocol x, (record waiting { reassembler = Reassembler.new }, after)))
            decoded in
      >>=-of_ok (send_integrity_poll C) (λ _. await_response C (suc fuel)) (reset_transport m, idle)
        (send_integrity_poll-Accepts bytes before hm encoded taken)
      ∙ await_response-done C fuel waiting (record waiting { reassembler = Reassembler.new }) before
          after heard (unfold ApplicationFragment.new in refl)
      ∙ λ i. (ok (snapshot db m.app_sequence), (polled-asking count ha i, after))
