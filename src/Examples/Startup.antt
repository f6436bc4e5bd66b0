-- ===== src/Examples/Startup.antt =====
-- examples/common/master_shared.rs: the start of a link and the loop of polls, over any channel. What is
-- printed is left out, but for the responses, which the loop returns.
use dnp3_rust_lib.Prelude.{
  none, some, ℕ, zero, suc, String, Bool, true, false, List, [], ◌∷◌, ◌++◌, if◌then◌else◌,
}
use Prim.Native.String as Text
use text.Mathlib.Text.{find?}
use dnp3_rust_lib.Core.Fallible.{Fallible, ok, err, stuck, Action, ◌>>=◌, ◌>>◌, pure}
use dnp3_rust_lib.Core.Address.{Address}
use dnp3_rust_lib.Link.ControlField.{LinkFunction, secondary, SecondaryFunction}
use dnp3_rust_lib.Link.LinkFrame
use dnp3_rust_lib.Link.LinkFrame.{LinkFrame}
use dnp3_rust_lib.App.ApplicationFragment.{ApplicationFragment}
use dnp3_rust_lib.Master.{
  MasterChannel, MasterError, transport, MasterConfig, default_config, new, World, integrity_poll,
}

-- `str::contains`
abbrev pub contains : String → String → Bool
contains message part = elim (find? message part) [ some position ↦ true | none ↦ false ]

-- What `format!` makes of its parts.
abbrev pub format : List String → String
format [] = ""
format (part ∷ parts) = Text.◌++◌ part (format parts)

abbrev pub is_ack : LinkFunction → Bool
is_ack (secondary SecondaryFunction.ack) = true
is_ack _ = false

-- The `MasterConfig` of `run_poll_loop`.
abbrev pub poll_config : Address → Address → MasterConfig
poll_config master_addr outstation_addr = record default_config {
  master = master_addr;
  outstation = outstation_addr;
}

-- `debug` is what `{:?}` prints of a function.
module _ (debug : LinkFunction → String) (C : MasterChannel) where
  -- The `match` of `expect_link_ack`.
  unfoldable pub after_ack :
      String → Fallible MasterError LinkFrame → Fallible MasterError (Unit {0})
  after_ack step (ok ack) =
      if is_ack ack.control.function
      then ok tt
      else err (
          transport (
            format
              ("expected link ACK after " ∷ step ∷ ", got " ∷ debug ack.control.function ∷ [])))
  after_ack step (err (transport message)) =
      if contains message "timed out"
      then err (
          transport (
            format (
              "no link-layer response after " ∷ step
              ∷ "; ensure the outstation is running, addresses match (--master/--outstation), and no stale process is holding the port"
              ∷ [])))
      else err (transport message)
  after_ack step (err error) = err error
  after_ack step stuck = stuck

  unfoldable pub expect_link_ack : String → Action C.State MasterError (Unit {0})
  unfolding after_ack
  expect_link_ack step c = let (received, c') = C.receive_frame c in (after_ack step received, c')

  unfoldable pub run_link_startup : Address → Address → Action C.State MasterError (Unit {0})
  unfolding expect_link_ack
  run_link_startup outstation master = do
    C.send_frame (LinkFrame.tool_reset_link_states outstation master)
    expect_link_ack "reset link states"
    C.send_frame (LinkFrame.tool_test_link_states outstation master false)
    expect_link_ack "test link states"

  -- The session and its channel, and the state of the closure that connects again.
  module _ (R : Type 0) (reconnect : Action R MasterError (Unit {0}))
      (master_addr outstation_addr : Address) where
    abbrev pub Loop : Type 0
    Loop = World C × R

    abbrev on_link : {A : Type 0} → Action C.State MasterError A → Action Loop MasterError A
    on_link action ((m, c), r) = let (result, c') = action c in (result, ((m, c'), r))

    abbrev on_reconnect : {A : Type 0} → Action R MasterError A → Action Loop MasterError A
    on_reconnect action (w, r) = let (result, r') = action r in (result, (w, r'))

    -- The branch of a failed poll. It prints no response.
    unfoldable pub recover : Action Loop MasterError (List ApplicationFragment)
    unfolding run_link_startup
    recover = do
      on_reconnect reconnect
      on_link (run_link_startup outstation_addr master_addr)
      λ ((m, c), r). (ok [], ((new (poll_config master_addr outstation_addr), c), r))

    -- The `match` of a round: the response that it prints, if any.
    unfoldable pub after_poll :
        Fallible MasterError ApplicationFragment
        → Action Loop MasterError (List ApplicationFragment)
    unfolding recover
    after_poll (ok response) w = (ok (response ∷ []), w)
    after_poll (err error) w = recover w
    after_poll stuck w = (stuck, w)

    -- A round of `run_poll_loop`; `fuel` is what its poll may use.
    unfoldable pub poll_round : ℕ → Action Loop MasterError (List ApplicationFragment)
    unfolding after_poll
    poll_round fuel (w, r) = let (result, w') = integrity_poll C fuel w in after_poll result (w', r)

    -- The first rounds of the loop, which the source never leaves but by an error.
    unfoldable pub poll_rounds : ℕ → ℕ → Action Loop MasterError (List ApplicationFragment)
    unfolding poll_round
    poll_rounds fuel zero = pure []
    poll_rounds fuel (suc rounds) =
        poll_round fuel >>= λ printed. poll_rounds fuel rounds >>= λ later. pure (printed ++ later)

    -- `run_poll_loop` from its start.
    unfoldable pub run_poll_loop :
        ℕ → ℕ → C.State → R → Fallible MasterError (List ApplicationFragment) × Loop
    unfolding poll_rounds
    run_poll_loop fuel rounds c r =
        poll_rounds fuel rounds ((new (poll_config master_addr outstation_addr), c), r)
