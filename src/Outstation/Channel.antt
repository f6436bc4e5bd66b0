-- ===== src/Outstation/Channel.antt =====
-- `run_once` of crates/dnp3-outstation/src/lib.rs on any channel of frames. The database is read when a
-- frame is handled; what other tasks have made of it by then is a function of the channel's state, which
-- stands for everything around the session.
use dnp3_rust_lib.Prelude.{ℕ, zero, suc, ◌≡◌, String, List, [], ◌∷◌}
use mathlib.Core.Path.{subst}
use dnp3_rust_lib.Prelude.Bytes.{IsBytes}
use dnp3_rust_lib.Core.Error.{ProtocolError}
use dnp3_rust_lib.Core.Address
use dnp3_rust_lib.Core.Address.{Address}
use dnp3_rust_lib.Core.Fallible.{
  Fallible, ok, stuck, from_result, Action, ◌>>=◌, ◌>>◌, pure, lift, Preserves, >>=-Preserves,
  >>=-elim,
}
use dnp3_rust_lib.Link.LinkFrame.{LinkFrame}
use dnp3_rust_lib.Outstation.{Database, OutstationSession, handle_frame}
use dnp3_rust_lib.Outstation.Invariant.{IsValid, handle_frame-IsValid}

pub data OutstationError : Type 0 where
  protocol : ProtocolError → OutstationError
  transport : String → OutstationError

pub record OutstationConfig : Type 0 where
  pub outstation : Address

-- `OutstationConfig::default`
abbrev pub default_config : OutstationConfig
default_config = record { outstation = Address.new 1024 }

-- `OutstationChannel`: what a channel's methods return, and the channel after them.
pub record OutstationChannel : Type 1 where
  pub State : Type 0
  pub send_frame : LinkFrame → Action State OutstationError (Unit {0})
  pub receive_frame : Action State OutstationError LinkFrame

module _ (C : OutstationChannel) (database : C.State → Database) where
  abbrev pub World : Type 0
  World = OutstationSession × C.State

  abbrev pub on_channel :
      {A : Type 0} → Action C.State OutstationError A → Action World OutstationError A
  on_channel action (s, c) = let (result, c') = action c in (result, (s, c'))

  abbrev pub handle : LinkFrame → Action World OutstationError (List LinkFrame)
  handle frame (s, c) =
      let (result, s') = handle_frame s (database c) frame in (from_result protocol result, (s', c))

  -- The `for` of `run_once`.
  unfoldable pub send_all : List LinkFrame → Action World OutstationError (Unit {0})
  send_all [] = pure tt
  send_all (response ∷ responses) = on_channel (C.send_frame response) >> send_all responses

  -- The end of a round: without a response the loop goes on.
  abbrev pub respond :
      Action World OutstationError (Unit {0})
      → List LinkFrame
      → Action World OutstationError (Unit {0})
  respond later [] = later
  respond later (response ∷ responses) = send_all (response ∷ responses)

  -- Each round receives one frame.
  unfoldable pub run_once : ℕ → Action World OutstationError (Unit {0})
  unfolding send_all
  run_once zero = lift stuck
  run_once (suc fuel) =
      on_channel C.receive_frame >>= λ frame. handle frame >>= respond (run_once fuel)

  -- The invariant of a session beside its channel.
  abbrev Held : World → Type 0
  Held (s, c) = IsValid s

  send_all-Preserves : (responses : List LinkFrame) → Preserves Held (send_all responses)
  unfolding send_all
  send_all-Preserves [] w h = h
  send_all-Preserves (response ∷ responses) w h =
      >>=-Preserves Held (on_channel (C.send_frame response)) (λ _. send_all responses) (λ w h. h)
        (λ _. send_all-Preserves responses) w h

  respond-Preserves :
      (later : Action World OutstationError (Unit {0})) (responses : List LinkFrame)
      → Preserves Held later
      → Preserves Held (respond later responses)
  respond-Preserves later [] k = k
  respond-Preserves later (response ∷ responses) k = send_all-Preserves (response ∷ responses)

  round-Held :
      (frame : LinkFrame) (later : Action World OutstationError (Unit {0})) (s : OutstationSession)
      (c : C.State)
      → IsBytes frame.payload
      → IsValid s
      → Preserves Held later
      → Held ((handle frame >>= respond later) (s, c)).1
  round-Held frame later s c hb h k =
      >>=-elim (handle frame) (respond later) (s, c)
        (λ (p : Fallible OutstationError (Unit {0}) × World). Held p.1)
        (λ responses w e. respond-Preserves later responses k w (subst (λ p. Held p.1) e handled))
        (λ error w e. subst (λ p. Held p.1) e handled) (λ w e. subst (λ p. Held p.1) e handled)
    where
      handled : Held (handle frame (s, c)).1
      handled = handle_frame-IsValid s (database c) frame hb h

  -- The channel's frames carry bytes.
  abbrev pub GivesBytes : Type 0
  GivesBytes =
      (c c' : C.State) (frame : LinkFrame)
      → C.receive_frame c ≡ (ok frame, c')
      → IsBytes frame.payload

  -- Whatever a channel of bytes gives, takes or fails with, and whatever becomes of the database
  -- meanwhile, a run leaves a valid session valid, also when it ends with an error.
  pub run_once-IsValid :
      (fuel : ℕ) (s : OutstationSession) (c : C.State)
      → GivesBytes
      → IsValid s
      → IsValid (run_once fuel (s, c)).1.0
  unfolding run_once
  run_once-IsValid zero s c gives h = h
  run_once-IsValid (suc fuel) s c gives h =
      >>=-elim (on_channel C.receive_frame) (λ frame. handle frame >>= respond (run_once fuel))
        (s, c) (λ (p : Fallible OutstationError (Unit {0}) × World). Held p.1)
        (λ frame w e.
          let (s', c') = w in
          round-Held frame (run_once fuel) s' c' (gives c c' frame (λ i. ((e i).0, (e i).1.1)))
            (subst IsValid (λ i. (e i).1.0) h) (λ (t, d). run_once-IsValid fuel t d gives))
        (λ error w e. subst IsValid (λ i. (e i).1.0) h) (λ w e. subst IsValid (λ i. (e i).1.0) h)
