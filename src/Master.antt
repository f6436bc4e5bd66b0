-- ===== src/Master.antt =====
-- crates/dnp3-master/src/lib.rs: the master's session over a channel of frames.
pub mod Sends
pub mod Receives
pub mod Loopback
pub mod Exchange
pub mod Requests
pub mod Answer
pub mod Poll
pub mod Invariant
pub mod Terminates
use dnp3_rust_lib.Prelude.{
  ℕ, zero, suc, ◌+◌, ◌%◌, ◌^◌, String, Bool, true, false, not, bit_and, Option, none, some, List,
  [], ◌∷◌, length, if◌then◌else◌,
}
use dnp3_rust_lib.Core.Error.{ProtocolError, Result, invalid_sequence, invalid_fragment}
use dnp3_rust_lib.Core.Error
use dnp3_rust_lib.Core.Fallible.{
  Fallible, ok, err, stuck, from_result, Action, ◌>>=◌, ◌>>◌, pure, lift,
}
use dnp3_rust_lib.Core.Address
use dnp3_rust_lib.Core.Address.{Address, address_eq}
use dnp3_rust_lib.Link.LinkFrame
use dnp3_rust_lib.Link.LinkFrame.{LinkFrame}
use dnp3_rust_lib.Transport.Segment
use dnp3_rust_lib.Transport.Segment.{TransportSegment, fragment}
use dnp3_rust_lib.Transport.Reassembler
use dnp3_rust_lib.Transport.Reassembler.{Reassembler, push}
use dnp3_rust_lib.App.FunctionCode
use dnp3_rust_lib.App.FunctionCode.{FunctionCode}
use dnp3_rust_lib.App.ApplicationFragment
use dnp3_rust_lib.App.ApplicationFragment.{
  ApplicationFragment, simulator_class_scan, integrity_poll_request,
}

pub data MasterError : Type 0 where
  protocol : ProtocolError → MasterError
  transport : String → MasterError

-- `MasterChannel`: what a channel's methods return, and the channel after them.
pub record MasterChannel : Type 1 where
  pub State : Type 0
  pub send_frame : LinkFrame → Action State MasterError (Unit {0})
  pub receive_frame : Action State MasterError LinkFrame

pub data LinkStyle : Type 0 where
  standard tool : LinkStyle

pub record MasterConfig : Type 0 where
  pub master : Address
  pub outstation : Address
  pub link_style : LinkStyle

-- `MasterConfig::default`
abbrev pub default_config : MasterConfig
default_config = record { master = Address.new 1; outstation = Address.new 1024; link_style = tool }

pub record MasterSession : Type 0 where
  pub config : MasterConfig
  pub transport_sequence : ℕ
  pub app_sequence : ℕ
  pub polls_sent : ℕ
  pub reassembler : Reassembler

-- `MasterSession::new`
unfoldable pub new : MasterConfig → MasterSession
new config = record {
  config = config;
  transport_sequence = 0;
  app_sequence = 0;
  polls_sent = 0;
  reassembler = Reassembler.new;
}

abbrev pub master_address : MasterSession → Address
master_address m = m.config.master

abbrev pub outstation_address : MasterSession → Address
outstation_address m = m.config.outstation

unfoldable pub next_app_sequence : MasterSession → ℕ × MasterSession
next_app_sequence m =
    (m.app_sequence, record m { app_sequence = bit_and ((m.app_sequence + 1) % 256) 0x0f })

unfoldable pub reset_transport : MasterSession → MasterSession
reset_transport m = record m { reassembler = Reassembler.reset m.reassembler }

-- The `match` of `send_integrity_poll`.
unfoldable pub poll_request : LinkStyle → ℕ → ApplicationFragment
poll_request tool sequence = simulator_class_scan sequence
poll_request standard sequence = integrity_poll_request sequence

-- The `match` of `send_application`: the frame of one segment.
unfoldable pub request_frame : MasterConfig → TransportSegment → Result LinkFrame
request_frame config segment = elim config.link_style [
  | standard ↦
      LinkFrame.unconfirmed_user_data config.outstation config.master (Segment.encode segment)
  | tool ↦
      LinkFrame.tool_unconfirmed_user_data config.outstation config.master (Segment.encode segment)
]

-- What `receive_application` does with the result of a push: `none` goes on with the loop.
unfoldable pub after_push :
    Result (Option (List ℕ))
    → MasterSession
    → Option (Fallible MasterError ApplicationFragment) × MasterSession
after_push (Error.ok (some bytes)) m =
    (some (from_result protocol (ApplicationFragment.decode bytes)), m)
after_push (Error.ok none) m = (none, m)
after_push (Error.err (invalid_sequence expected actual)) m = (none, reset_transport m)
after_push (Error.err invalid_fragment) m = (none, reset_transport m)
after_push (Error.err e) m = (some (err (protocol e)), m)
after_push Error.stuck m = (some stuck, m)

-- The `loop` of `receive_application` on one frame.
unfoldable pub receive_one :
    LinkFrame → MasterSession → Option (Fallible MasterError ApplicationFragment) × MasterSession
unfolding after_push
receive_one frame m =
    if not (address_eq frame.destination m.config.master)
    then (none, m)
    else elim (Segment.decode frame.payload) [
      | Error.ok segment ↦
          let (pushed, reassembler) = push segment m.reassembler in
          after_push pushed (record m { reassembler = reassembler })
      | Error.err e ↦ (some (err (protocol e)), m)
      | Error.stuck ↦ (some stuck, m)
    ]

-- The `match` of `integrity_poll`.
abbrev pub is_response : FunctionCode → Bool
is_response FunctionCode.response = true
is_response FunctionCode.unsolicited_response = true
is_response _ = false

module _ (C : MasterChannel) where
  -- The session and the channel that its methods are given.
  abbrev pub World : Type 0
  World = MasterSession × C.State

  abbrev pub on_channel : {A : Type 0} → Action C.State MasterError A → Action World MasterError A
  on_channel action (m, c) = let (result, c') = action c in (result, (m, c'))

  -- The `for` of `send_application`.
  unfoldable pub send_segments : List TransportSegment → Action World MasterError (Unit {0})
  unfolding request_frame
  send_segments [] (m, c) = pure tt (m, c)
  send_segments (segment ∷ rest) (m, c) =
      (do
        frame ← lift (from_result protocol (request_frame m.config segment))
        on_channel (C.send_frame frame)
        send_segments rest)
        (m, c)

  unfoldable pub send_application : ApplicationFragment → Action World MasterError (Unit {0})
  unfolding send_segments
  send_application fragment_to_send (m, c) =
      (lift (from_result protocol (ApplicationFragment.encode fragment_to_send)) >>= λ encoded.
      λ (m1, c1).
        let segments = fragment encoded m1.transport_sequence in
        send_segments segments (
          record m1 {
            transport_sequence =
                bit_and ((m1.transport_sequence + length segments % 256) % 256) 0x3f;
          },
          c1,
        ))
        (m, c)

  -- The counter is a u64.
  unfoldable pub send_integrity_poll : Action World MasterError (Unit {0})
  unfolding send_application next_app_sequence poll_request
  send_integrity_poll (m, c) =
      let (sequence, m1) = next_app_sequence m in
      send_application (poll_request m1.config.link_style sequence)
        (record m1 { polls_sent = (m1.polls_sent + 1) % 2 ^ 64 }, c)

  -- The end of a round of `receive_application`: it returns, or the loop goes on.
  abbrev pub end_round :
      Action World MasterError ApplicationFragment
      → Option (Fallible MasterError ApplicationFragment) × MasterSession
      → C.State
      → Fallible MasterError ApplicationFragment × World
  end_round later (some result, m) c = (result, (m, c))
  end_round later (none, m) c = later (m, c)

  -- A round of `receive_application` behind its receive: `later` is the loop from there on.
  abbrev pub round :
      Action World MasterError ApplicationFragment
      → LinkFrame
      → Action World MasterError ApplicationFragment
  round later frame (m, c) = end_round later (receive_one frame m) c

  -- Each round receives one frame.
  unfoldable pub receive_application : ℕ → Action World MasterError ApplicationFragment
  unfolding receive_one
  receive_application zero = lift stuck
  receive_application (suc fuel) = on_channel C.receive_frame >>= round (receive_application fuel)

  -- A round of `integrity_poll` behind its receive: `later` is the loop from there on.
  abbrev pub settle :
      Action World MasterError ApplicationFragment
      → ApplicationFragment
      → Action World MasterError ApplicationFragment
  settle later response (m, c) =
      let again = later (reset_transport m, c) in
      if is_response response.function then (ok response, (m, c)) else again

  -- The `loop` of `integrity_poll`. Each round receives one fragment, so at least one frame.
  unfoldable pub await_response : ℕ → Action World MasterError ApplicationFragment
  unfolding receive_application reset_transport
  await_response zero = lift stuck
  await_response (suc fuel) = receive_application (suc fuel) >>= settle (await_response fuel)

  unfoldable pub integrity_poll : ℕ → Action World MasterError ApplicationFragment
  unfolding send_integrity_poll await_response
  integrity_poll fuel (m, c) = (send_integrity_poll >> await_response fuel) (reset_transport m, c)
