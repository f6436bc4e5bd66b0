-- ===== src/Outstation/Runs.antt =====
-- How `run_once` of crates/dnp3-outstation/src/lib.rs ends, on any channel of frames.
use dnp3_rust_lib.Prelude.{ℕ, zero, suc, ◌<◌, ◌≡◌, ◌≢◌, refl, ◌∙◌, List, [], ◌∷◌, length, arith}
use dnp3_rust_lib.Core.Error.{ProtocolError, Result}
use dnp3_rust_lib.Core.Error
use dnp3_rust_lib.Core.Fallible.{
  Fallible, ok, err, stuck, from_result, ◌>>=◌, >>=-of_ok, >>=-of_err,
}
use dnp3_rust_lib.Link.LinkFrame.{LinkFrame}
use dnp3_rust_lib.Outstation.{Database, OutstationSession, handle_frame}
use dnp3_rust_lib.Outstation.Channel.{
  OutstationError, protocol, OutstationChannel, World, on_channel, handle, respond, send_all,
  run_once,
}

module _ (C : OutstationChannel) (database : C.State → Database) where
  abbrev Outcome : Type 0
  Outcome = Fallible OutstationError (Unit {0})

  abbrev Around : Type 0
  Around = World C database

  -- Frames that the channel gives one after the other, and that are handled in turn without an answer.
  pub data Quiet : Around → List LinkFrame → Around → Type 0 where
    over : {w : Around} → Quiet w [] w
    unanswered :
        {s s' : OutstationSession} {c c1 : C.State} {w' : Around} {frame : LinkFrame}
        {frames : List LinkFrame}
        → C.receive_frame c ≡ (ok frame, c1)
        → handle_frame s (database c1) frame ≡ (Error.ok [], s')
        → Quiet (s', c1) frames w'
        → Quiet (s, c) (frame ∷ frames) w'

  -- Sends of these frames in their order, up to the first that fails.
  pub data Sends : C.State → List LinkFrame → Outcome → C.State → Type 0 where
    all_sent : {c : C.State} → Sends c [] (ok tt) c
    sent :
        {c c1 c' : C.State} {frame : LinkFrame} {frames : List LinkFrame} {outcome : Outcome}
        → C.send_frame frame c ≡ (ok tt, c1)
        → Sends c1 frames outcome c'
        → Sends c (frame ∷ frames) outcome c'
    send_failed :
        {c c' : C.State} {frame : LinkFrame} {frames : List LinkFrame} {error : OutstationError}
        → C.send_frame frame c ≡ (err error, c')
        → Sends c (frame ∷ frames) (err error) c'

  -- The round that ends a run: nothing is received, the frame's handler fails, or it answers.
  pub data Ends : Around → Outcome → Around → Type 0 where
    receive_failed :
        {s : OutstationSession} {c c' : C.State} {error : OutstationError}
        → C.receive_frame c ≡ (err error, c')
        → Ends (s, c) (err error) (s, c')
    handler_failed :
        {s s' : OutstationSession} {c c' : C.State} {frame : LinkFrame} {error : ProtocolError}
        → C.receive_frame c ≡ (ok frame, c')
        → handle_frame s (database c') frame ≡ (Error.err error, s')
        → Ends (s, c) (err (protocol error)) (s', c')
    answered :
        {s s' : OutstationSession} {c c1 c' : C.State} {frame response : LinkFrame}
        {responses : List LinkFrame} {outcome : Outcome}
        → C.receive_frame c ≡ (ok frame, c1)
        → handle_frame s (database c1) frame ≡ (Error.ok (response ∷ responses), s')
        → Sends c1 (response ∷ responses) outcome c'
        → Ends (s, c) outcome (s', c')

  -- Whatever holds of each way on from a round holds of the run.
  round-elim :
      (fuel : ℕ) (s : OutstationSession) (c : C.State) (Q : Outcome × Around → Type 0)
      → ((w : Around) → Q (stuck, w))
      → ((error : OutstationError) (c' : C.State)
          → C.receive_frame c ≡ (err error, c')
          → Q (err error, (s, c')))
      → ((frame : LinkFrame) (c' : C.State) (error : ProtocolError) (s' : OutstationSession)
          → C.receive_frame c ≡ (ok frame, c')
          → handle_frame s (database c') frame ≡ (Error.err error, s')
          → Q (err (protocol error), (s', c')))
      → ((frame : LinkFrame) (c' : C.State) (responses : List LinkFrame) (s' : OutstationSession)
          → C.receive_frame c ≡ (ok frame, c')
          → handle_frame s (database c') frame ≡ (Error.ok responses, s')
          → Q (respond C database (run_once C database fuel) responses (s', c')))
      → Q (run_once C database (suc fuel) (s, c))
  unfolding run_once
  round-elim fuel s c Q on_stuck on_receive on_handle on_responses =
      received (C.receive_frame c).0 (C.receive_frame c).1 refl
    where
      handled :
          (frame : LinkFrame) (c' : C.State)
          → C.receive_frame c ≡ (ok frame, c')
          → (result : Result (List LinkFrame)) (s' : OutstationSession)
          → handle_frame s (database c') frame ≡ (result, s')
          → Q (elim (from_result protocol result) as (λ x. Outcome × Around) [
            | ok value ↦ respond C database (run_once C database fuel) value (s', c')
            | err error ↦ (err error, (s', c'))
            | stuck ↦ (stuck, (s', c'))
          ])
      handled frame c' e (Error.ok responses) s' k = on_responses frame c' responses s' e k
      handled frame c' e (Error.err error) s' k = on_handle frame c' error s' e k
      handled frame c' e Error.stuck s' k = on_stuck (s', c')

      received :
          (result : Fallible OutstationError LinkFrame) (c' : C.State)
          → C.receive_frame c ≡ (result, c')
          → Q (elim result as (λ x. Outcome × Around) [
            | ok value ↦
                (◌>>=◌ (handle C database value) (respond C database (run_once C database fuel)))
                  (s, c')
            | err error ↦ (err error, (s, c'))
            | stuck ↦ (stuck, (s, c'))
          ])
      received (ok frame) c' e =
          handled frame c' e (handle_frame s (database c') frame).0
            (handle_frame s (database c') frame).1 refl
      received (err error) c' e = on_receive error c' e
      received stuck c' e = on_stuck (s, c')

  send_all-elim :
      (frames : List LinkFrame) (s : OutstationSession) (c : C.State)
      (Q : Outcome × Around → Type 0)
      → ((w : Around) → Q (stuck, w))
      → ((outcome : Outcome) (c' : C.State) → Sends c frames outcome c' → Q (outcome, (s, c')))
      → Q (send_all C database frames (s, c))
  unfolding send_all
  send_all-elim [] s c Q on_stuck on_sends = on_sends (ok tt) c all_sent
  send_all-elim (frame ∷ frames) s c Q on_stuck on_sends =
      go (C.send_frame frame c).0 (C.send_frame frame c).1 refl λ c' e.
        send_all-elim frames s c' Q on_stuck λ outcome c'' rest. on_sends outcome c'' (sent e rest)
    where
      go :
          (result : Outcome) (c' : C.State)
          → C.send_frame frame c ≡ (result, c')
          → ((c' : C.State)
              → C.send_frame frame c ≡ (ok tt, c')
              → Q (send_all C database frames (s, c')))
          → Q (elim result as (λ x. Outcome × Around) [
            | ok value ↦ send_all C database frames (s, c')
            | err error ↦ (err error, (s, c'))
            | stuck ↦ (stuck, (s, c'))
          ])
      go (ok value) c' e again = again c' e
      go (err error) c' e again = on_sends (err error) c' (send_failed e)
      go stuck c' e again = on_stuck (s, c')

  -- A run on fuel that was enough: frames without an answer, and a round that ends it.
  abbrev Ran : Around → Outcome × Around → Type 0
  Ran w p = (frames : List LinkFrame) × (w1 : Around) × Quiet w frames w1 × Ends w1 p.0 p.1

  -- A run that ends, on any channel and whatever becomes of the database meanwhile, has received some
  -- frames that were handled in turn without an answer, and then one of three things: the channel's
  -- error, a frame whose handler failed, or a frame with an answer, whose frames were sent in their
  -- order up to the first that failed. The run's result and the state after it are those of that.
  pub run_once-Ends :
      (fuel : ℕ) (s : OutstationSession) (c : C.State)
      → (run_once C database fuel (s, c)).0 ≢ stuck
      → (frames : List LinkFrame) × (w1 : Around) × Quiet (s, c) frames w1
        × Ends w1 (run_once C database fuel (s, c)).0 (run_once C database fuel (s, c)).1
  run_once-Ends zero s c h = absurd (h (unfold run_once in refl))
  run_once-Ends (suc fuel) s c h =
      round-elim fuel s c (λ p. p.0 ≢ stuck → Ran (s, c) p) (λ w k. absurd (k refl))
        (λ error c' e k. ([], (s, c), over, receive_failed e))
        (λ frame c' error s' e e' k. ([], (s, c), over, handler_failed e e'))
        (ended λ s' c'. run_once-Ends fuel s' c') h
    where
      Again : Type 0
      Again =
          (s' : OutstationSession) (c' : C.State)
          → (run_once C database fuel (s', c')).0 ≢ stuck
          → Ran (s', c') (run_once C database fuel (s', c'))

      ended :
          Again
          → (frame : LinkFrame) (c' : C.State) (responses : List LinkFrame) (s' : OutstationSession)
          → C.receive_frame c ≡ (ok frame, c')
          → handle_frame s (database c') frame ≡ (Error.ok responses, s')
          → (respond C database (run_once C database fuel) responses (s', c')).0 ≢ stuck
          → Ran (s, c) (respond C database (run_once C database fuel) responses (s', c'))
      ended again frame c' [] s' e e' k =
          let (frames, w1, quiet, ends) = again s' c' k in
          (frame ∷ frames, w1, unanswered e e' quiet, ends)
      ended again frame c' (response ∷ responses) s' e e' k =
          send_all-elim (response ∷ responses) s' c' (λ p. p.0 ≢ stuck → Ran (s, c) p)
            (λ w k. absurd (k refl))
            (λ outcome c'' sends k. ([], (s, c), over, answered e e' sends)) k

  send_all-of_Sends :
      (s : OutstationSession) {frames : List LinkFrame} {c c' : C.State} {outcome : Outcome}
      → Sends c frames outcome c'
      → send_all C database frames (s, c) ≡ (outcome, (s, c'))
  unfolding send_all
  send_all-of_Sends s all_sent = refl
  send_all-of_Sends s (sent {c} {c1} {c'} {frame} {frames} e rest) =
      >>=-of_ok (on_channel C database (C.send_frame frame)) (λ _. send_all C database frames) _
        (λ i. ((e i).0, (s, (e i).1)))
      ∙ send_all-of_Sends s rest
  send_all-of_Sends s (send_failed {c} {c'} {frame} {frames} e) =
      >>=-of_err (on_channel C database (C.send_frame frame)) (λ _. send_all C database frames) _
        (λ i. ((e i).0, (s, (e i).1)))

  handled-round :
      (fuel : ℕ) (s s' : OutstationSession) (c c1 : C.State) (frame : LinkFrame)
      (responses : List LinkFrame)
      → C.receive_frame c ≡ (ok frame, c1)
      → handle_frame s (database c1) frame ≡ (Error.ok responses, s')
      → run_once C database (suc fuel) (s, c)
        ≡ respond C database (run_once C database fuel) responses (s', c1)
  unfolding run_once
  handled-round fuel s s' c c1 frame responses e e' =
      >>=-of_ok (on_channel C database C.receive_frame)
        (λ frame. ◌>>=◌ (handle C database frame) (respond C database (run_once C database fuel)))
        (s, c) (λ i. ((e i).0, (s, (e i).1)))
      ∙ >>=-of_ok (handle C database frame) (respond C database (run_once C database fuel)) (s, c1)
          (λ i. (from_result protocol (e' i).0, ((e' i).1, c1)))

  -- When a channel gives some frames that are handled in turn without an answer, and then fails, or
  -- gives a frame whose handler fails, or gives a frame with an answer, whose frames it takes in their
  -- order up to the first that fails, a run on more fuel than there are frames without an answer ends
  -- with the result of that, and in the state after it.
  pub run_once-of_Ends :
      (fuel : ℕ) {w w1 w' : Around} {frames : List LinkFrame} {outcome : Outcome}
      → Quiet w frames w1
      → Ends w1 outcome w'
      → length frames < fuel
      → run_once C database fuel w ≡ (outcome, w')
  unfolding run_once
  run_once-of_Ends zero quiet ends h = absurd (omega arith)
  run_once-of_Ends (suc fuel) over (receive_failed {s} {c} e) h =
      >>=-of_err (on_channel C database C.receive_frame)
        (λ frame. ◌>>=◌ (handle C database frame) (respond C database (run_once C database fuel)))
        (s, c) (λ i. ((e i).0, (s, (e i).1)))
  run_once-of_Ends (suc fuel) over (handler_failed {s} {s'} {c} {c'} {frame} e e') h =
      >>=-of_ok (on_channel C database C.receive_frame)
        (λ frame. ◌>>=◌ (handle C database frame) (respond C database (run_once C database fuel)))
        (s, c) (λ i. ((e i).0, (s, (e i).1)))
      ∙ >>=-of_err (handle C database frame) (respond C database (run_once C database fuel)) (s, c')
          (λ i. (from_result protocol (e' i).0, ((e' i).1, c')))
  run_once-of_Ends (suc fuel) over
        (answered {s} {s'} {c} {c1} {frame = frame} {response = response} {responses = responses} e
          e' sends)
        h =
      handled-round fuel s s' c c1 frame (response ∷ responses) e e' ∙ send_all-of_Sends s' sends
  run_once-of_Ends (suc fuel) (unanswered {s} {s'} {c} {c1} {frame = frame} e e' quiet) ends h =
      handled-round fuel s s' c c1 frame [] e e' ∙ run_once-of_Ends fuel quiet ends (omega arith)
