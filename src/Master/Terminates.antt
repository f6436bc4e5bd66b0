-- ===== src/Master/Terminates.antt =====
-- The loops of the session end on a channel that runs dry.
use dnp3_rust_lib.Prelude.{
  ℕ, zero, suc, ◌<◌, ◌≤◌, ◌≡◌, ◌≢◌, refl, Bool, true, false, Bool-cases, inl, inr, Option, none,
  some, List, [], arith, if◌then◌else◌,
}
use mathlib.Core.Path.{subst}
use dnp3_rust_lib.Core.Error
use dnp3_rust_lib.Core.Error.{
  Result, Result-cases, ProtocolError, invalid_sequence, invalid_fragment,
}
use dnp3_rust_lib.Core.Fallible.{Fallible, ok, err, stuck, from_result, Action, >>=-elim}
use dnp3_rust_lib.Core.Address.{address_eq}
use dnp3_rust_lib.Link.LinkFrame.{LinkFrame}
use dnp3_rust_lib.Transport.Segment
use dnp3_rust_lib.Transport.Segment.{TransportSegment}
use dnp3_rust_lib.Transport.Reassembler.{Reassembler, Pushed, push, push_open, push_expected}
use dnp3_rust_lib.App.ApplicationFragment
use dnp3_rust_lib.App.ApplicationFragment.{ApplicationFragment}
use dnp3_rust_lib.App.ApplicationFragment.Terminates.{decode-ne-stuck_fragment}
use dnp3_rust_lib.Master.{
  MasterChannel, MasterError, MasterSession, protocol, World, on_channel, end_round, round, settle,
  reset_transport, is_response, after_push, receive_one, receive_application, await_response,
}

-- Decoding a segment ends with a segment or an error.
Segment-decode-ne-stuck : (input : List ℕ) → Segment.decode input ≢ Error.stuck
unfolding Segment.decode
Segment-decode-ne-stuck input h = ground arith

push_expected-ne-stuck :
    (segment : TransportSegment) (r : Reassembler) (expected : ℕ)
    → (push_expected segment r expected).0 ≢ Error.stuck
unfolding push_expected
push_expected-ne-stuck segment r expected h = ground arith

push_open-ne-stuck :
    (segment : TransportSegment) (r : Reassembler) → (push_open segment r).0 ≢ Error.stuck
unfolding push_open
push_open-ne-stuck segment r = go r.expected_sequence
  where
    go :
        (expected : Option ℕ)
        → (elim expected as (λ x. Pushed) [
          | none ↦ (Error.err invalid_fragment, r)
          | some n ↦ push_expected segment r n
        ]).0
          ≢ Error.stuck
    go none h = cc
    go (some n) h = push_expected-ne-stuck segment r n h

either-ne-stuck :
    (b : Bool) (x y : Pushed)
    → x.0 ≢ Error.stuck
    → y.0 ≢ Error.stuck
    → (if b then x else y).0 ≢ Error.stuck
either-ne-stuck true x y h k = h
either-ne-stuck false x y h k = k

push-ne-stuck : (segment : TransportSegment) (r : Reassembler) → (push segment r).0 ≢ Error.stuck
unfolding push
push-ne-stuck segment r =
    either-ne-stuck segment.header.fir _ _
      (push_open-ne-stuck segment
        (record { expected_sequence = some segment.header.sequence; buffer = [] }))
      (push_open-ne-stuck segment r)

-- A round that ends does so with a result.
Settled : Option (Fallible MasterError ApplicationFragment) → Type 0
Settled none = Unit
Settled (some result) = result ≢ stuck

from_result-ne-stuck {ℓ} :
    {A : Type ℓ} (x : Result A) → x ≢ Error.stuck → from_result protocol x ≢ stuck
from_result-ne-stuck (Error.ok value) h e = cc
from_result-ne-stuck (Error.err error) h e = cc
from_result-ne-stuck Error.stuck h e = h refl

err-ne-stuck :
    (error : MasterError) → ◌≢◌ {A = Fallible MasterError ApplicationFragment} (err error) stuck
err-ne-stuck error h = cc

after_push-Settled :
    (result : Result (Option (List ℕ))) (m : MasterSession)
    → result ≢ Error.stuck
    → Settled (after_push result m).0
unfolding after_push Settled
after_push-Settled (Error.ok (some bytes)) m h =
    from_result-ne-stuck (ApplicationFragment.decode bytes) (decode-ne-stuck_fragment bytes)
after_push-Settled (Error.ok none) m h = tt
after_push-Settled (Error.err (invalid_sequence expected actual)) m h = tt
after_push-Settled (Error.err invalid_fragment) m h = tt
after_push-Settled (Error.err _) m h = err-ne-stuck _
after_push-Settled Error.stuck m h = absurd (h refl)

receive_one-Settled : (frame : LinkFrame) (m : MasterSession) → Settled (receive_one frame m).0
unfolding receive_one Settled
receive_one-Settled frame m = elim (Bool-cases (address_eq frame.destination m.config.master)) [
  | inr other ↦ rw (other, receive_one) tt
  | inl mine ↦ elim (Result-cases (Segment.decode frame.payload)) [
    | inl (segment, e) ↦
        rw (mine, receive_one, e)
          (after_push-Settled (push segment m.reassembler).0 _
            (push-ne-stuck segment m.reassembler))
    | inr (inl (x, e)) ↦ rw (mine, receive_one, e) (err-ne-stuck (protocol x))
    | inr (inr e) ↦ absurd (Segment-decode-ne-stuck frame.payload e)
  ]
]

-- A channel that has only so many frames left to give.
pub record Drains (C : MasterChannel) : Type 0 where
  pub left : C.State → ℕ
  pub falls :
      (c c' : C.State) (frame : LinkFrame) → C.receive_frame c ≡ (ok frame, c') → left c' < left c
  pub settles : (c : C.State) → (C.receive_frame c).0 ≢ stuck

module _ (C : MasterChannel) (drains : Drains C) where
  -- A call that ends, and that has taken a frame from the channel when it returns a fragment.
  Ends : ℕ → Fallible MasterError ApplicationFragment × World C → Type 0
  Ends n (ok response, (m, c)) = drains.left c < n
  Ends n (err error, w) = Unit
  Ends n (stuck, w) = ⊥

  Ends-mono :
      (n k : ℕ) (p : Fallible MasterError ApplicationFragment × World C)
      → n ≤ k
      → Ends n p
      → Ends k p
  unfolding Ends
  Ends-mono n k (ok response, (m, c)) h e = omega arith
  Ends-mono n k (err error, w) h e = tt
  Ends-mono n k (stuck, w) h e = absurd e

  Ends-ne-stuck :
      (n : ℕ) (p : Fallible MasterError ApplicationFragment × World C) → Ends n p → p.0 ≢ stuck
  unfolding Ends
  Ends-ne-stuck n (ok response, w) e h = cc
  Ends-ne-stuck n (err error, w) e h = cc
  Ends-ne-stuck n (stuck, w) e h = e

  end_round-Ends :
      (later : Action (World C) MasterError ApplicationFragment)
      (outcome : Option (Fallible MasterError ApplicationFragment) × MasterSession) (c : C.State)
      (n : ℕ)
      → Settled outcome.0
      → drains.left c < n
      → ((m : MasterSession) → Ends n (later (m, c)))
      → Ends n (end_round C later outcome c)
  unfolding Ends Settled
  end_round-Ends later (none, m) c n h k again = again m
  end_round-Ends later (some (ok response), m) c n h k again = k
  end_round-Ends later (some (err error), m) c n h k again = tt
  end_round-Ends later (some stuck, m) c n h k again = absurd (h refl)

  receive_application-Ends :
      (fuel : ℕ) (m : MasterSession) (c : C.State)
      → drains.left c < fuel
      → Ends (drains.left c) (receive_application C fuel (m, c))
  unfolding receive_application Ends
  receive_application-Ends zero m c h = absurd (omega arith)
  receive_application-Ends (suc fuel) m c h =
      >>=-elim (on_channel C C.receive_frame) (round C (receive_application C fuel)) (m, c)
        (Ends (drains.left c))
        (λ frame w e.
          let (m', c') = w in
          let fewer : drains.left c' < drains.left c =
            drains.falls c c' frame (λ i. ((e i).0, (e i).1.1)) in
          end_round-Ends (receive_application C fuel) (receive_one frame m') c' (drains.left c)
            (receive_one-Settled frame m') fewer
            (λ m''.
              Ends-mono (drains.left c') (drains.left c) _ (omega arith)
                (receive_application-Ends fuel m'' c' (omega arith))))
        (λ error w e. tt) (λ w e. absurd (drains.settles c (λ i. (e i).0)))

  settle-Ends :
      (again : Action (World C) MasterError ApplicationFragment) (response : ApplicationFragment)
      (m : MasterSession) (c : C.State) (n : ℕ)
      → drains.left c < n
      → ((m : MasterSession) → Ends n (again (m, c)))
      → Ends n (settle C again response (m, c))
  unfolding Ends
  settle-Ends again response m c n h k = elim (Bool-cases (is_response response.function)) [
    | inl done ↦ rw done h
    | inr other ↦ rw other (k (reset_transport m))
  ]

  await_response-Ends :
      (fuel : ℕ) (m : MasterSession) (c : C.State)
      → drains.left c < fuel
      → Ends (drains.left c) (await_response C fuel (m, c))
  unfolding await_response Ends
  await_response-Ends zero m c h = absurd (omega arith)
  await_response-Ends (suc fuel) m c h =
      >>=-elim (receive_application C (suc fuel)) (settle C (await_response C fuel)) (m, c)
        (Ends (drains.left c))
        (λ response w e.
          let (m', c') = w in
          let fewer : drains.left c' < drains.left c =
            subst (Ends (drains.left c)) e (receive_application-Ends (suc fuel) m c h) in
          settle-Ends (await_response C fuel) response m' c' (drains.left c) fewer (λ m''.
            Ends-mono (drains.left c') (drains.left c) _ (omega arith)
              (await_response-Ends fuel m'' c' (omega arith))))
        (λ error w e. tt)
        (λ w e. absurd (subst (Ends (drains.left c)) e (receive_application-Ends (suc fuel) m c h)))

  -- On a channel that runs dry, the wait for a response ends with a response or an error after at most
  -- one round for each frame that is left, and one more, whatever the frames carry.
  pub await_response-ne-stuck :
      (fuel : ℕ) (m : MasterSession) (c : C.State)
      → drains.left c < fuel
      → (await_response C fuel (m, c)).0 ≢ stuck
  await_response-ne-stuck fuel m c h =
      Ends-ne-stuck (drains.left c) _ (await_response-Ends fuel m c h)
