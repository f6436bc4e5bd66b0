-- ===== src/Examples/Acknowledged.antt =====
-- A link that is started, and the polls on it, at the outstation behind a loopback.
use dnp3_rust_lib.Prelude.{
  ℕ, zero, suc, ◌+◌, ◌%◌, ◌≤◌, ◌≡◌, refl, ap, ◌∙◌, String, true, false, List, [], ◌∷◌, ◌++◌, arith,
  ==_refl,
}
use dnp3_rust_lib.Core.Error
use dnp3_rust_lib.Core.Fallible.{ok, Action, ◌>>=◌, ◌>>◌, pure, >>=-of_ok}
use dnp3_rust_lib.Core.Address.{Address}
use dnp3_rust_lib.Link.ControlField.{LinkFunction, primary_control}
use dnp3_rust_lib.Link.LinkFrame
use dnp3_rust_lib.Link.LinkFrame.{LinkFrame}
use dnp3_rust_lib.Transport.Reassembler
use dnp3_rust_lib.App.ApplicationFragment.{ApplicationFragment}
use dnp3_rust_lib.Outstation.{Database, OutstationSession, handle_frame, dispatch}
use dnp3_rust_lib.Outstation.Application.{Fits}
use dnp3_rust_lib.Master.{MasterError, MasterSession, default_config, new, integrity_poll}
use dnp3_rust_lib.Master.Loopback.{Loopback, loopback, send_frame, receive_frame}
use dnp3_rust_lib.Master.Exchange.{send_frame-answered}
use dnp3_rust_lib.Master.Requests.{snapshot}
use dnp3_rust_lib.Master.Answer.{polled}
use dnp3_rust_lib.Master.Poll.{Ready, poll-answers}
use dnp3_rust_lib.Examples.Startup.{
  is_ack, after_ack, expect_link_ack, run_link_startup, poll_config, Loop, after_poll, poll_round,
  poll_rounds, run_poll_loop,
}

-- An outstation's session after a reset of the link.
abbrev pub cleared : OutstationSession → OutstationSession
cleared s = record s { reassembler = Reassembler.reset s.reassembler; transport_sequence = 0 }

module _ (db : Database) (s : OutstationSession) (master : Address) where
  reset-handled :
      handle_frame s db (LinkFrame.tool_reset_link_states s.outstation master)
      ≡ (Error.ok (LinkFrame.legacy_ack master s.outstation ∷ []), cleared s)
  unfolding handle_frame dispatch LinkFrame.tool_reset_link_states primary_control
  reset-handled = rw (==_refl s.outstation.value, handle_frame)

  test-handled :
      handle_frame s db (LinkFrame.tool_test_link_states s.outstation master false)
      ≡ (Error.ok (LinkFrame.legacy_ack_with_fcb master s.outstation false ∷ []), s)
  unfolding handle_frame dispatch LinkFrame.tool_test_link_states primary_control
  test-handled = rw (==_refl s.outstation.value, handle_frame)

module _ (debug : LinkFunction → String) (db : Database) where
  expect_link_ack-of_ack :
      (step : String) (s : OutstationSession) (ack : LinkFrame) (rest : List LinkFrame)
      → is_ack ack.control.function ≡ true
      → expect_link_ack debug (loopback db) step (record { session = s; queue = ack ∷ rest })
        ≡ (ok tt, record { session = s; queue = rest })
  unfolding expect_link_ack receive_frame after_ack
  expect_link_ack-of_ack step s ack rest h = rw h refl

  run_link_startup-acknowledged :
      (s : OutstationSession) (master : Address)
      → run_link_startup debug
          (loopback db)
          s.outstation
          master
          (record { session = s; queue = [] })
        ≡ (ok tt, record { session = cleared s; queue = [] })
  unfolding run_link_startup LinkFrame.legacy_ack LinkFrame.legacy_ack_with_fcb
  run_link_startup-acknowledged s master =
      >>=-of_ok (send_frame db reset)
        (λ _.
          expect_link_ack debug (loopback db) "reset link states"
          >> (send_frame db test >> expect_link_ack debug (loopback db) "test link states"))
        (record { session = s; queue = [] })
        (send_frame-answered db default_config s (cleared s) [] reset (reset-handled db s master))
      ∙ >>=-of_ok (expect_link_ack debug (loopback db) "reset link states")
          (λ _. send_frame db test >> expect_link_ack debug (loopback db) "test link states")
          (record { session = cleared s; queue = LinkFrame.legacy_ack master s.outstation ∷ [] })
          (expect_link_ack-of_ack "reset link states" (cleared s)
            (LinkFrame.legacy_ack master s.outstation) [] refl)
      ∙ >>=-of_ok (send_frame db test) (λ _. expect_link_ack debug (loopback db) "test link states")
          (record { session = cleared s; queue = [] })
          (send_frame-answered db default_config (cleared s) (cleared s) [] test
            (test-handled db (cleared s) master))
      ∙ expect_link_ack-of_ack "test link states" (cleared s)
          (LinkFrame.legacy_ack_with_fcb master s.outstation false) [] refl
    where
      reset : LinkFrame
      reset = LinkFrame.tool_reset_link_states s.outstation master

      test : LinkFrame
      test = LinkFrame.tool_test_link_states s.outstation master false

  -- The responses to so many polls, the first of which has this sequence number.
  abbrev pub snapshots : ℕ → ℕ → List ApplicationFragment
  snapshots zero sequence = []
  snapshots (suc rounds) sequence = snapshot db sequence ∷ snapshots rounds ((sequence + 1) % 16)

  module _ (fits : Fits db) (R : Type 0) (reconnect : Action R MasterError (Unit {0}))
      (master_addr outstation_addr : Address) (r : R) where
    -- The loop over the loopback.
    abbrev over_loopback :
        ℕ
        → ℕ
        → Action
            (Loop debug (loopback db) R reconnect master_addr outstation_addr)
            MasterError
            (List ApplicationFragment)
    over_loopback fuel rounds =
        poll_rounds debug (loopback db) R reconnect master_addr outstation_addr fuel rounds

    -- A round of the loop, carried on.
    abbrev and_then :
        ℕ
        → ℕ
        → List ApplicationFragment
        → Action
            (Loop debug (loopback db) R reconnect master_addr outstation_addr)
            MasterError
            (List ApplicationFragment)
    and_then fuel rounds printed = over_loopback fuel rounds >>= λ later. pure (printed ++ later)

    poll_round-answered :
        (fuel : ℕ) (m m' : MasterSession) (c c' : Loopback) {response : ApplicationFragment}
        → integrity_poll (loopback db) fuel (m, c) ≡ (ok response, (m', c'))
        → poll_round debug (loopback db) R reconnect master_addr outstation_addr fuel ((m, c), r)
          ≡ (ok (response ∷ []), ((m', c'), r))
    unfolding poll_round after_poll
    poll_round-answered fuel m m' c c' e =
        ap
          (λ p. after_poll debug (loopback db) R reconnect master_addr outstation_addr p.0 (p.1, r))
          e

    poll_rounds-answered :
        (rounds : ℕ) (m : MasterSession) (s : OutstationSession)
        → Ready m s
        → (enough : ℕ) × (m' : MasterSession) × (s' : OutstationSession) × ((fuel : ℕ)
            → enough ≤ fuel
            → over_loopback fuel rounds ((m, record { session = s; queue = [] }), r) ≡ (
              ok (snapshots rounds m.app_sequence),
              ((m', record { session = s'; queue = [] }), r),
            ))
    unfolding poll_rounds
    poll_rounds-answered zero m s ready = (0, m, s, λ fuel h. refl)
    poll_rounds-answered (suc rounds) m s ready =
        let (enough, count, s1, answered, ready1) = poll-answers db m s ready fits in
        let (later, m', s', rest) = poll_rounds-answered rounds (polled m count) s1 ready1 in
        (
          enough + later,
          m',
          s',
          λ fuel h.
              >>=-of_ok
                (poll_round debug (loopback db) R reconnect master_addr outstation_addr fuel)
                (and_then fuel rounds) _
                (poll_round-answered fuel m (polled m count) _ _ (answered fuel (omega arith)))
              ∙ >>=-of_ok (over_loopback fuel rounds)
                  (λ more. pure (snapshot db m.app_sequence ∷ more)) _ (rest fuel (omega arith)),
        )

  -- Whatever state an outstation's session is in, as long as every list of its database makes a valid
  -- object, the start of a link over an idle loopback succeeds, and any number of rounds of the loop of
  -- polls that follows, as soon as each poll is allowed enough rounds of its own, print in each of them the
  -- five lists of points of the database, in their order and without the empty ones, under sequence
  -- numbers that count from 0 modulo 16. This holds for every
  -- way to connect again, and leaves its state alone.
  pub run_poll_loop-answered :
      (s : OutstationSession) (master_addr : Address) (R : Type 0)
      (reconnect : Action R MasterError (Unit {0})) (r : R) (rounds : ℕ)
      → Fits db
      → (c : Loopback) × (run_link_startup debug
            (loopback db)
            s.outstation
            master_addr
            (record { session = s; queue = [] })
          ≡ (ok tt, c))
        × (enough : ℕ) × (m' : MasterSession) × (c' : Loopback) × ((fuel : ℕ)
            → enough ≤ fuel
            → run_poll_loop debug (loopback db) R reconnect master_addr s.outstation fuel rounds c r
              ≡ (ok (snapshots rounds 0), ((m', c'), r)))
  unfolding run_poll_loop new
  run_poll_loop-answered s master_addr R reconnect r rounds fits =
      let (enough, m', s', answered) =
        poll_rounds-answered fits R reconnect master_addr s.outstation r rounds
          (new (poll_config master_addr s.outstation)) (cleared s)
          (record {
            mine = refl;
            transport = omega arith;
            application = omega arith;
            remote = omega arith;
          }) in
      (
        record { session = cleared s; queue = [] },
        run_link_startup-acknowledged s master_addr,
        enough,
        m',
        record { session = s'; queue = [] },
        answered,
      )
