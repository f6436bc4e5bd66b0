-- ===== src/Serial/Mock.antt =====
-- `MockSerialEndpoint` of crates/dnp3-serial/src/lib.rs. The two shared queues are a store that both
-- endpoints refer to, each from its side.
use dnp3_rust_lib.Prelude.{ℕ, zero, suc, ◌+◌, ◌≡◌, ap, List, [], ◌∷◌, ◌++◌, leb, if◌then◌else◌}
use dnp3_rust_lib.Core.Fallible.{Fallible, ok, err, stuck, from_result, Action}
use dnp3_rust_lib.Link.LinkFrame
use dnp3_rust_lib.Link.LinkFrame.{LinkFrame}
use dnp3_rust_lib.Serial.{protocol, timeout, Driver, Error}

-- The two queues, and the clock of `Instant::now` in milliseconds.
pub record Wires : Type 0 where
  pub left_to_right : List (List ℕ)
  pub right_to_left : List (List ℕ)
  pub now : ℕ

-- An endpoint of a pair: which of the queues are its own.
pub data Side : Type 0 where
  left right : Side

abbrev pub peer : Side → Side
peer left = right
peer right = left

pub record MockSerialEndpoint : Type 0 where
  pub side : Side
  pub timeout : ℕ

-- `MockSerialEndpoint::pair`
unfoldable pub pair : ℕ → MockSerialEndpoint × MockSerialEndpoint
pair wait = (record { side = left; timeout = wait }, record { side = right; timeout = wait })

-- The queues that `pair` makes.
abbrev pub no_wires : ℕ → Wires
no_wires now = record { left_to_right = []; right_to_left = []; now = now }

abbrev pub inbound : Side → Wires → List (List ℕ)
inbound left w = w.right_to_left
inbound right w = w.left_to_right

abbrev pub set_inbound : Side → List (List ℕ) → Wires → Wires
set_inbound left queue w = record w { right_to_left = queue }
set_inbound right queue w = record w { left_to_right = queue }

module _ (D : Driver) where
  -- `write_frame`: an endpoint's outbound queue is the inbound queue of its peer.
  unfoldable pub write_frame : MockSerialEndpoint → LinkFrame → Action Wires (Error D) (Unit {0})
  write_frame e frame w =
      (ok tt, set_inbound (peer e.side) (inbound (peer e.side) w ++ LinkFrame.encode frame ∷ []) w)

  -- `sleep` is what the clock and the other tasks do in the five milliseconds.
  module _ (sleep : Wires → Wires) where
    -- A round of `read_frame` on the inbound queue: `later` is the loop from there on.
    abbrev pub round :
        Side
        → ℕ
        → Fallible (Error D) LinkFrame × Wires
        → List (List ℕ)
        → Wires
        → Fallible (Error D) LinkFrame × Wires
    round side deadline later (bytes ∷ rest) w =
        (from_result protocol (LinkFrame.decode bytes), set_inbound side rest w)
    round side deadline later [] w = if leb deadline w.now then (err timeout, w) else later

    -- The `loop` of `read_frame`. Each round but the last sleeps.
    unfoldable pub read_until : Side → ℕ → ℕ → Action Wires (Error D) LinkFrame
    read_until side deadline zero w = (stuck, w)
    read_until side deadline (suc fuel) w =
        round side deadline (read_until side deadline fuel (sleep w)) (inbound side w) w

    unfoldable pub read_frame : MockSerialEndpoint → ℕ → Action Wires (Error D) LinkFrame
    unfolding read_until
    read_frame e fuel w = read_until e.side (w.now + e.timeout) fuel w

    pub read_frame-waiting :
        (e : MockSerialEndpoint) (fuel : ℕ) (w : Wires) (bytes : List ℕ) (rest : List (List ℕ))
        → inbound e.side w ≡ bytes ∷ rest
        → read_frame e (suc fuel) w
          ≡ (from_result protocol (LinkFrame.decode bytes), set_inbound e.side rest w)
    unfolding read_frame
    read_frame-waiting e fuel w bytes rest h =
        ap
          (λ q.
            round e.side (w.now + e.timeout) (read_until e.side (w.now + e.timeout) fuel (sleep w))
              q w)
          h

    -- The frames that reads return one after the other, each as soon as it is asked for.
    pub data Reads (e : MockSerialEndpoint) : Wires → List LinkFrame → Wires → Type 0 where
      over : {w : Wires} → Reads e w [] w
      reads :
          {w w1 w' : Wires} {frame : LinkFrame} {frames : List LinkFrame}
          → ((fuel : ℕ) → read_frame e (suc fuel) w ≡ (ok frame, w1))
          → Reads e w1 frames w'
          → Reads e w (frame ∷ frames) w'

  -- The wires after some writes.
  abbrev pub written : MockSerialEndpoint → List LinkFrame → Wires → Wires
  written e [] w = w
  written e (frame ∷ frames) w = written e frames (write_frame e frame w).1
