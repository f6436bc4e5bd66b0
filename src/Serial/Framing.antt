-- ===== src/Serial/Framing.antt =====
-- A frame on a serial line: what is written is read.
use dnp3_rust_lib.Prelude.{ℕ, ◌≡◌, refl, ap, ◌∙◌, List, [], ◌++◌}
use dnp3_rust_lib.Core.Fallible.{ok, Action, map_err, map_err-of_ok, map_err-eq-ok, >>=-eq-ok}
use dnp3_rust_lib.Link.LinkFrame.{LinkFrame, encode}
use dnp3_rust_lib.Link.LinkFrame.RoundTrip.{IsValid}
use dnp3_rust_lib.Link.Framing.{Buffered, read_by, read_by-encode}
use dnp3_rust_lib.Serial.{
  protocol, io, Driver, Error, read_rest_blocking, read_frame_blocking, read_frame, write_frame,
}

module _ (D : Driver) where
  abbrev arriving : ℕ → Action D.Port (Error D) (List ℕ)
  arriving n = map_err io (D.read_exact n)

  read_frame-by : (s : D.Port) → read_frame D s ≡ read_by protocol arriving s
  unfolding read_frame read_frame_blocking read_rest_blocking
  read_frame-by s = refl

  abbrev arriving-Buffered : Buffered D.read_exact → Buffered arriving
  arriving-Buffered buffered = record {
    pending = buffered.pending;
    gives = λ n s h.
        let (s', e, p) = buffered.gives n s h in (s', map_err-of_ok io (D.read_exact n) s e, p);
    takes = λ n s s' e. buffered.takes n s s' (map_err-eq-ok io (D.read_exact n) s e);
  }

  -- A line between two ports: what one port has taken and not yet flushed, and what was flushed for the
  -- other to read.
  pub record Line : Type 0 where
    pub buffered : Buffered D.read_exact
    pub taken : D.Port → List ℕ
    pub written :
        (bytes : List ℕ) (s s' : D.Port) {u : Unit {0}}
        → D.write_all bytes s ≡ (ok u, s')
        → taken s' ≡ taken s ++ bytes
    pub flushed : (s s' : D.Port) {u : Unit {0}} → D.flush s ≡ (ok u, s') → taken s' ≡ taken s

  -- A successful `write_frame` on one port has put the frame's encoding on the line, and a reader at the
  -- other end that has this encoding next to read, reads the frame and leaves what follows it.
  pub write_frame-read_frame :
      (line : Line) (f : LinkFrame) (writer writer' reader : D.Port) (rest : List ℕ) {u : Unit {0}}
      → IsValid f
      → line.taken writer ≡ []
      → write_frame D f writer ≡ (ok u, writer')
      → line.buffered.pending reader ≡ line.taken writer' ++ rest
      → (reader' : D.Port) × (read_frame D reader ≡ (ok f, reader'))
        × (line.buffered.pending reader' ≡ rest)
  unfolding write_frame
  write_frame-read_frame line f writer writer' reader rest v empty wrote next =
      let (u1, middle, e1, e2) =
        >>=-eq-ok (map_err io (D.write_all (encode f))) (λ _. map_err io D.flush) writer wrote in
      let sent : line.taken writer' ≡ encode f =
        line.flushed middle writer' (map_err-eq-ok io D.flush middle e2)
        ∙ line.written (encode f) writer middle
            (map_err-eq-ok io (D.write_all (encode f)) writer e1)
        ∙ ap (λ t. t ++ encode f) empty in
      let (reader', e, p) =
        read_by-encode protocol arriving (arriving-Buffered line.buffered) f reader rest v
          (next ∙ ap (λ t. t ++ rest) sent) in
      (reader', read_frame-by reader ∙ e, p)
