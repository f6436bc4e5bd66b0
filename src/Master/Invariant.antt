-- ===== src/Master/Invariant.antt =====
-- The session's numbers stay in range, and its reassembler only holds a run of segments, whatever the
-- channel does.
use dnp3_rust_lib.Prelude.{
  ℕ, zero, suc, ◌+◌, ◌%◌, ◌<◌, ◌≡◌, Bool-cases, inl, inr, Option, none, some, List, [], ◌∷◌, length,
  arith, bit_and,
}
use mathlib.Core.Path.{subst}
use dnp3_rust_lib.Prelude.Bytes.{IsBytes}
use dnp3_rust_lib.Prelude.Masks.{and_0f, and_3f}
use dnp3_rust_lib.Core.Error
use dnp3_rust_lib.Core.Error.{
  Result, Result-cases, ProtocolError, invalid_sequence, invalid_fragment,
}
use dnp3_rust_lib.Core.Fallible.{
  Fallible, ok, from_result, Action, ◌>>◌, lift, Preserves, >>=-elim, >>=-Preserves,
}
use dnp3_rust_lib.Core.Address.{address_eq}
use dnp3_rust_lib.Link.LinkFrame.{LinkFrame}
use dnp3_rust_lib.Transport.Segment
use dnp3_rust_lib.Transport.Segment.{TransportSegment, fragment}
use dnp3_rust_lib.Transport.Segment.Shape.{decoded-Fits}
use dnp3_rust_lib.Transport.Reassembler.{push}
use dnp3_rust_lib.Transport.Reassembler.Sound.{Reaches, start, pushed, cleared}
use dnp3_rust_lib.App.ApplicationFragment
use dnp3_rust_lib.App.ApplicationFragment.{ApplicationFragment}
use dnp3_rust_lib.Master.{
  MasterChannel, MasterError, MasterSession, MasterConfig, protocol, World, on_channel, end_round,
  round, settle, new, next_app_sequence, reset_transport, request_frame, is_response, after_push,
  receive_one, send_segments, send_application, send_integrity_poll, receive_application,
  await_response, integrity_poll,
}

-- The next sequence numbers have six and four bits, and the reassembler's state comes from pushes and
-- resets.
pub record IsValid (m : MasterSession) : Type 0 where
  pub transport : m.transport_sequence < 64
  pub application : m.app_sequence < 16
  pub earlier : List TransportSegment
  pub reaches : Reaches earlier m.reassembler

-- A session starts in a valid state.
pub new-IsValid : (config : MasterConfig) → IsValid (new config)
unfolding new
new-IsValid config = record {
  transport = omega arith;
  application = omega arith;
  earlier = [];
  reaches = start;
}

reset_transport-IsValid : (m : MasterSession) → IsValid m → IsValid (reset_transport m)
unfolding reset_transport
reset_transport-IsValid m v = record {
  transport = v.transport;
  application = v.application;
  earlier = v.earlier;
  reaches = cleared v.reaches;
}

after_push-IsValid :
    (result : Result (Option (List ℕ))) (m : MasterSession)
    → IsValid m
    → IsValid (after_push result m).1
unfolding after_push
after_push-IsValid (Error.ok (some bytes)) m v = v
after_push-IsValid (Error.ok none) m v = v
after_push-IsValid (Error.err (invalid_sequence expected actual)) m v = reset_transport-IsValid m v
after_push-IsValid (Error.err invalid_fragment) m v = reset_transport-IsValid m v
after_push-IsValid (Error.err _) m v = v
after_push-IsValid Error.stuck m v = v

receive_one-IsValid :
    (frame : LinkFrame) (m : MasterSession)
    → IsBytes frame.payload
    → IsValid m
    → IsValid (receive_one frame m).1
unfolding receive_one
receive_one-IsValid frame m hb v =
    elim (Bool-cases (address_eq frame.destination m.config.master)) [
      | inr other ↦ rw (other, receive_one) v
      | inl mine ↦ elim (Result-cases (Segment.decode frame.payload)) [
        | inl (segment, e) ↦
            rw (mine, receive_one, e)
              (after_push-IsValid (push segment m.reassembler).0
                (record m { reassembler = (push segment m.reassembler).1 })
                (record {
                  transport = v.transport;
                  application = v.application;
                  earlier = segment ∷ v.earlier;
                  reaches = pushed segment v.reaches (decoded-Fits frame.payload segment hb e).0;
                }))
        | inr (inl (x, e)) ↦ rw (mine, receive_one, e) v
        | inr (inr e) ↦ rw (mine, receive_one, e) v
      ]
    ]

next_app_sequence-IsValid : (m : MasterSession) → IsValid m → IsValid (next_app_sequence m).1
unfolding next_app_sequence
next_app_sequence-IsValid m v = record {
  transport = v.transport;
  application = omega (arith, and_0f ((m.app_sequence + 1) % 256));
  earlier = v.earlier;
  reaches = v.reaches;
}

module _ (C : MasterChannel) where
  -- The channel's frames carry bytes.
  abbrev pub GivesBytes : Type 0
  GivesBytes =
      (c c' : C.State) (frame : LinkFrame)
      → C.receive_frame c ≡ (ok frame, c')
      → IsBytes frame.payload

  -- The invariant of a session beside its channel.
  abbrev Held : World C → Type 0
  Held (m, c) = IsValid m

  on_channel-Preserves :
      {A : Type 0} (action : Action C.State MasterError A) → Preserves Held (on_channel C action)
  on_channel-Preserves action (m, c) v = v

  send_segments-Preserves :
      (segments : List TransportSegment) → Preserves Held (send_segments C segments)
  unfolding send_segments
  send_segments-Preserves [] (m, c) v = v
  send_segments-Preserves (segment ∷ rest) (m, c) v =
      >>=-Preserves Held (lift (from_result protocol (request_frame m.config segment)))
        (λ frame. on_channel C (C.send_frame frame) >> send_segments C rest) (λ w h. h)
        (λ frame.
          >>=-Preserves Held (on_channel C (C.send_frame frame)) (λ _. send_segments C rest)
            (on_channel-Preserves (C.send_frame frame)) (λ _. send_segments-Preserves rest))
        (m, c) v

  -- What `send_application` does with the encoded bytes.
  abbrev send_encoded : List ℕ → Action (World C) MasterError (Unit {0})
  send_encoded encoded (m1, c1) =
      let segments = fragment encoded m1.transport_sequence in
      send_segments C segments (
        record m1 {
          transport_sequence = bit_and ((m1.transport_sequence + length segments % 256) % 256) 0x3f;
        },
        c1,
      )

  send_encoded-Preserves : (encoded : List ℕ) → Preserves Held (send_encoded encoded)
  send_encoded-Preserves encoded (m, c) v =
      send_segments-Preserves (fragment encoded m.transport_sequence) _ (record {
        transport = omega (
          arith,
          and_3f
              ((m.transport_sequence + length (fragment encoded m.transport_sequence) % 256) % 256),
        );
        application = v.application;
        earlier = v.earlier;
        reaches = v.reaches;
      })

  send_application-Preserves : (f : ApplicationFragment) → Preserves Held (send_application C f)
  unfolding send_application
  send_application-Preserves f (m, c) v =
      >>=-Preserves Held (lift (from_result protocol (ApplicationFragment.encode f))) send_encoded
        (λ w h. h) send_encoded-Preserves (m, c) v

  send_integrity_poll-Preserves : Preserves Held (send_integrity_poll C)
  unfolding send_integrity_poll
  send_integrity_poll-Preserves (m, c) v =
      let v1 = next_app_sequence-IsValid m v in
      send_application-Preserves _ _ (record {
        transport = v1.transport;
        application = v1.application;
        earlier = v1.earlier;
        reaches = v1.reaches;
      })

  module _ (gives : GivesBytes) where
    end_round-Held :
        (later : Action (World C) MasterError ApplicationFragment)
        (outcome : Option (Fallible MasterError ApplicationFragment) × MasterSession) (c : C.State)
        → Preserves Held later
        → IsValid outcome.1
        → Held (end_round C later outcome c).1
    end_round-Held later (some result, m) c h v = v
    end_round-Held later (none, m) c h v = h (m, c) v

    receive_application-Preserves : (fuel : ℕ) → Preserves Held (receive_application C fuel)
    unfolding receive_application
    receive_application-Preserves zero (m, c) v = v
    receive_application-Preserves (suc fuel) (m, c) v =
        >>=-elim (on_channel C C.receive_frame) (round C (receive_application C fuel)) (m, c)
          (λ (p : Fallible MasterError ApplicationFragment × World C). Held p.1)
          (λ frame w e.
            let (m', c') = w in
            end_round-Held (receive_application C fuel) (receive_one frame m') c'
              (receive_application-Preserves fuel)
              (receive_one-IsValid frame m' (gives c c' frame (λ i. ((e i).0, (e i).1.1)))
                (subst IsValid (λ i. (e i).1.0) v)))
          (λ error w e. subst IsValid (λ i. (e i).1.0) v) (λ w e. subst IsValid (λ i. (e i).1.0) v)

    settle-Preserves :
        (again : Action (World C) MasterError ApplicationFragment)
        → Preserves Held again
        → (response : ApplicationFragment) → Preserves Held (settle C again response)
    settle-Preserves again keeps response (m, c) v =
        elim (Bool-cases (is_response response.function)) [
          | inl done ↦ rw done v
          | inr other ↦ rw other (keeps (reset_transport m, c) (reset_transport-IsValid m v))
        ]

    await_response-Preserves : (fuel : ℕ) → Preserves Held (await_response C fuel)
    unfolding await_response
    await_response-Preserves zero (m, c) v = v
    await_response-Preserves (suc fuel) (m, c) v =
        >>=-Preserves Held (receive_application C (suc fuel)) (settle C (await_response C fuel))
          (receive_application-Preserves (suc fuel))
          (settle-Preserves (await_response C fuel) (await_response-Preserves fuel)) (m, c) v

    -- Whatever a channel of bytes sends, refuses or fails with, an integrity poll leaves a valid
    -- session valid, also when it ends with an error.
    pub integrity_poll-IsValid :
        (fuel : ℕ) (m : MasterSession) (c : C.State)
        → IsValid m
        → IsValid (integrity_poll C fuel (m, c)).1.0
    unfolding integrity_poll
    integrity_poll-IsValid fuel m c v =
        >>=-Preserves Held (send_integrity_poll C) (λ _. await_response C fuel)
          send_integrity_poll-Preserves (λ _. await_response-Preserves fuel) (reset_transport m, c)
          (reset_transport-IsValid m v)
