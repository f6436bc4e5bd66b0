-- ===== src/Examples/Served.antt =====
-- A connection on which frames arrive is served as the session handles them.
use dnp3_rust_lib.Prelude.{
  ℕ, suc, ◌+◌, ◌≡◌, refl, ap, ◌∙◌, List, [], ◌∷◌, ◌++◌, append_assoc, All, length, arith,
}
use dnp3_rust_lib.Core.Error
use dnp3_rust_lib.Core.Error.{Result}
use dnp3_rust_lib.Core.Fallible.{
  Fallible, ok, err, stuck, map_err, >>=-Preserves, map_err-Preserves,
}
use dnp3_rust_lib.Link.LinkFrame.{LinkFrame, encode}
use dnp3_rust_lib.Link.LinkFrame.RoundTrip.{IsValid}
use dnp3_rust_lib.Outstation.{Database, OutstationSession, handle_frame}
use dnp3_rust_lib.Tcp.{Network, Duration, TcpError, TcpConnection, io, connection_write_frame}
use dnp3_rust_lib.Tcp.Framing.{Streams, incoming, connection_read_frame-encode}
use dnp3_rust_lib.Examples.Channels.{write_responses, serve_frame, after_read, serve}

-- The session after it has handled some frames in turn, whatever they are answered with.
abbrev pub handled : Database → OutstationSession → List LinkFrame → OutstationSession
handled db s [] = s
handled db s (frame ∷ frames) = handled db (handle_frame s db frame).1 frames

abbrev pub encodings : List LinkFrame → List ℕ
encodings [] = []
encodings (frame ∷ frames) = encode frame ++ encodings frames

-- Streams on which writing leaves alone what the far end sends.
pub record Duplex (N : Network) (streams : Streams N) : Type 0 where
  pub written :
      (t : Duration) (bytes : List ℕ) (s : N.Stream)
      → (streams t).pending (N.write_all bytes s).1 ≡ (streams t).pending s
  pub flushed :
      (t : Duration) (s : N.Stream) → (streams t).pending (N.flush s).1 ≡ (streams t).pending s

module _ (N : Network) (streams : Streams N) (duplex : Duplex N streams) where
  incoming-write :
      (frame : LinkFrame) (c : TcpConnection N)
      → incoming N streams (connection_write_frame N frame c).1 ≡ incoming N streams c
  unfolding connection_write_frame
  incoming-write frame c =
      >>=-Preserves Same (map_err io (N.write_all (encode frame))) (λ _. map_err io N.flush)
        (map_err-Preserves Same io (N.write_all (encode frame))
          (λ s h. duplex.written c.read_timeout (encode frame) s ∙ h))
        (λ _. map_err-Preserves Same io N.flush (λ s h. duplex.flushed c.read_timeout s ∙ h))
        c.stream refl
    where
      Same : N.Stream → Type 0
      Same s = (streams c.read_timeout).pending s ≡ incoming N streams c

  incoming-write_responses :
      (frames : List LinkFrame) (c : TcpConnection N)
      → incoming N streams (write_responses N frames c) ≡ incoming N streams c
  unfolding write_responses
  incoming-write_responses [] c = refl
  incoming-write_responses (frame ∷ frames) c =
      go (connection_write_frame N frame c).0
        (incoming-write_responses frames (connection_write_frame N frame c).1)
    where
      c' : TcpConnection N
      c' = (connection_write_frame N frame c).1

      go :
          (result : Fallible (TcpError N) (Unit {0}))
          → incoming N streams (write_responses N frames c') ≡ incoming N streams c'
          → incoming N streams (elim result as (λ x. TcpConnection N) [
            | ok u ↦ write_responses N frames c'
            | err error ↦ c'
            | stuck ↦ c'
          ])
            ≡ incoming N streams c
      go (ok u) more = more ∙ incoming-write frame c
      go (err error) more = incoming-write frame c
      go stuck more = incoming-write frame c

  serve_frame-handled :
      (db : Database) (frame : LinkFrame) (s : OutstationSession) (c : TcpConnection N)
      → ((serve_frame N db frame (s, c)).0 ≡ (handle_frame s db frame).1)
        × (incoming N streams (serve_frame N db frame (s, c)).1 ≡ incoming N streams c)
  unfolding serve_frame
  serve_frame-handled db frame s c = go (handle_frame s db frame).0
    where
      s' : OutstationSession
      s' = (handle_frame s db frame).1

      after : Result (List LinkFrame) → OutstationSession × TcpConnection N
      after responses = elim responses [
        | Error.ok frames ↦ (s', write_responses N frames c)
        | Error.err error ↦ (s', c)
        | Error.stuck ↦ (s', c)
      ]

      go :
          (responses : Result (List LinkFrame))
          → ((after responses).0 ≡ s')
            × (incoming N streams (after responses).1 ≡ incoming N streams c)
      go (Error.ok frames) = (refl, incoming-write_responses frames c)
      go (Error.err error) = (refl, refl)
      go Error.stuck = (refl, refl)

  -- When the far end of a connection sends the encodings of some valid frames, one after the other, the
  -- loop that serves the connection hands exactly these frames to the session, in their order, and goes
  -- on with the bytes that follow, whatever it could or could not write back. The database stays the
  -- same meanwhile.
  pub serve-handled :
      (db : Database) (frames : List LinkFrame) (s : OutstationSession) (c : TcpConnection N)
      (rest : List ℕ) (fuel : ℕ)
      → All IsValid frames
      → incoming N streams c ≡ encodings frames ++ rest
      → (c' : TcpConnection N) × (serve N (length frames + fuel) (λ left. db) (s, c)
          ≡ serve N fuel (λ left. db) (handled db s frames, c'))
        × (incoming N streams c' ≡ rest)
  unfolding serve
  serve-handled db [] s c rest fuel v h =
      (c, ap (λ k. serve N k (λ left. db) (s, c)) (omega arith), h)
  serve-handled db (frame ∷ frames) s c rest fuel (v, vs) h =
      let k : ℕ = length frames + fuel in
      let rounds : length (frame ∷ frames) + fuel ≡ suc k = omega arith in
      let (c1, e, p1) =
        connection_read_frame-encode N streams frame c (encodings frames ++ rest) v
          (h ∙ append_assoc (encode frame) (encodings frames) rest) in
      let (same, p2) = serve_frame-handled db frame s c1 in
      let w : OutstationSession × TcpConnection N = serve_frame N db frame (s, c1) in
      let (c', later, p3) = serve-handled db frames w.0 w.1 rest fuel vs (p2 ∙ p1) in
      (
        c',
        ap (λ n. serve N n (λ left. db) (s, c)) rounds
            ∙ ap (after_read N (serve N k (λ left. db)) db s) e
            ∙ later
            ∙ ap (λ t. serve N fuel (λ left. db) (handled db t frames, c')) same,
        p3,
      )
