-- ===== src/Tcp/Framing.antt =====
-- What a TCP connection reads of the bytes that its far end sends.
use dnp3_rust_lib.Prelude.{
  ℕ, zero, suc, ◌≡◌, ◌≤◌, length, refl, sym, ap, ◌∙◌, not, List, [], ◌++◌, take, drop,
  if◌then◌else◌, ◌==◌, ne→==, arith,
}
use mathlib.Core.Path.{subst}
use dnp3_rust_lib.Prelude.Bytes.{IsBytes}
use dnp3_rust_lib.Core.Fallible.{
  ok, Action, pure, map_err, map_err-of_ok, map_err-eq-ok, ok-injective,
}
use dnp3_rust_lib.Link.LinkFrame.{LinkFrame, encode}
use dnp3_rust_lib.Link.LinkFrame.RoundTrip.{IsValid}
use dnp3_rust_lib.Link.Framing.{Buffered, read_by, read_by-encode, read_by_sound}
use dnp3_rust_lib.Tcp.{
  Duration, protocol, from_timed, Network, TcpError, TcpConnection, read_rest, read_frame,
  connection_read_frame,
}

module _ (N : Network) (read_timeout : Duration) where
  -- The reads of `read_frame`, which skips an empty one.
  abbrev arriving : ℕ → Action N.Stream (TcpError N) (List ℕ)
  arriving n = if not (n == 0) then map_err from_timed (N.read_exact read_timeout n) else pure []

  read_frame-by : (s : N.Stream) → read_frame N read_timeout s ≡ read_by protocol arriving s
  unfolding read_frame read_rest
  read_frame-by s = refl

  arriving-suc :
      (n : ℕ) (s : N.Stream)
      → arriving (suc n) s ≡ map_err from_timed (N.read_exact read_timeout (suc n)) s
  arriving-suc n s = rw (ne→== (suc n) 0 (omega arith))

  module _ (buffered : Buffered (N.read_exact read_timeout)) where
    arriving-gives :
        (n : ℕ) (s : N.Stream)
        → n ≤ length (buffered.pending s)
        → (s' : N.Stream) × (arriving n s ≡ (ok (take n (buffered.pending s)), s'))
          × (buffered.pending s' ≡ drop n (buffered.pending s))
    arriving-gives zero s h = (s, refl, refl)
    arriving-gives (suc n) s h =
        let (s', e, p) = buffered.gives (suc n) s h in
        (s', arriving-suc n s ∙ map_err-of_ok from_timed (N.read_exact read_timeout (suc n)) s e, p)

    arriving-takes :
        (n : ℕ) (s s' : N.Stream) {bytes : List ℕ}
        → arriving n s ≡ (ok bytes, s')
        → (bytes ≡ take n (buffered.pending s))
          × (buffered.pending s' ≡ drop n (buffered.pending s))
    arriving-takes zero s s' e =
        (sym (ok-injective (ap (λ p. p.0) e)), ap (λ p. buffered.pending p.1) (sym e))
    arriving-takes (suc n) s s' e = buffered.takes (suc n) s s' (
        map_err-eq-ok from_timed (N.read_exact read_timeout (suc n)) s (sym (arriving-suc n s) ∙ e))

    abbrev arriving-Buffered : Buffered arriving
    arriving-Buffered = record {
      pending = buffered.pending;
      gives = arriving-gives;
      takes = arriving-takes;
    }

-- The streams that give their readers the bytes that the far end sends, under every timeout.
abbrev pub Streams : Network → Type 0
Streams N = (read_timeout : Duration) → Buffered (N.read_exact read_timeout)

module _ (N : Network) (streams : Streams N) where
  -- The bytes that a connection is still to read.
  abbrev pub incoming : TcpConnection N → List ℕ
  incoming c = (streams c.read_timeout).pending c.stream

  -- When the far end sends the encoding of a valid frame, the connection reads that frame, whatever
  -- bytes follow it, and leaves exactly those.
  pub connection_read_frame-encode :
      (f : LinkFrame) (c : TcpConnection N) (rest : List ℕ)
      → IsValid f
      → incoming c ≡ encode f ++ rest
      → (c' : TcpConnection N) × (connection_read_frame N c ≡ (ok f, c')) × (incoming c' ≡ rest)
  unfolding connection_read_frame
  connection_read_frame-encode f c rest v h =
      let (s', e, p) =
        read_by-encode protocol (arriving N c.read_timeout)
          (arriving-Buffered N c.read_timeout (streams c.read_timeout)) f c.stream rest v h in
      let e' = read_frame-by N c.read_timeout c.stream ∙ e in
      (record c { stream = s' }, (λ i. ((e' i).0, record c { stream = (e' i).1 })), p)

  -- When the bytes that the far end sends are bytes and the connection reads a frame, it has taken the
  -- encoding of that frame from their front, and nothing more.
  pub connection_read_frame_sound :
      (f : LinkFrame) (c c' : TcpConnection N)
      → IsBytes (incoming c)
      → connection_read_frame N c ≡ (ok f, c')
      → incoming c ≡ encode f ++ incoming c'
  unfolding connection_read_frame
  connection_read_frame_sound f c c' hb h =
      subst (λ (d : TcpConnection N). incoming c ≡ encode f ++ incoming d) (ap (λ p. p.1) h)
        (read_by_sound protocol (arriving N c.read_timeout)
          (arriving-Buffered N c.read_timeout (streams c.read_timeout)) f c.stream
          (read_frame N c.read_timeout c.stream).1 hb
          (sym (read_frame-by N c.read_timeout c.stream) ∙ λ i.
            ((h i).0, (read_frame N c.read_timeout c.stream).1)))
