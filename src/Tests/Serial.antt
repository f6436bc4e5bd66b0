-- ===== src/Tests/Serial.antt =====
-- Serial ports and mock endpoints on concrete frames.
use dnp3_rust_lib.Prelude.{
  ℕ, ◌+◌, ◌≤◌, ◌≡◌, ◌≢◌, refl, sym, ap, All, List, [], ◌∷◌, ◌++◌, length, take, drop, ltb, le→ltb,
  arith, if◌then◌else◌, Bool, true, false,
}
use dnp3_rust_lib.Prelude.Bytes.{IsBytes}
use dnp3_rust_lib.Core.Fallible.{Fallible, ok, err, stuck, Action, err-ne-ok, ok-injective}
use dnp3_rust_lib.Link.LinkFrame.{encode}
use dnp3_rust_lib.Serial.{Driver, write_frame, read_frame}
use dnp3_rust_lib.Serial.Framing.{Line, write_frame-read_frame}
use dnp3_rust_lib.Serial.Mock
use dnp3_rust_lib.Serial.Mock.{
  Wires, MockSerialEndpoint, pair, no_wires, written, Reads, inbound, Side, left, right,
}
use dnp3_rust_lib.Serial.Pair.{Runs, written-Reads, read_frame-ne-stuck}
use dnp3_rust_lib.Tests.Tcp.{frame, frame-IsValid}

-- A port: what has arrived, and what was written.
abbrev Port : Type 0
Port = List ℕ × List ℕ

abbrev read_port : ℕ → Action Port (Unit {0}) (List ℕ)
read_port n (s, out) =
    if ltb (length s) n then (err tt, (s, out)) else (ok (take n s), (drop n s, out))

abbrev ports : Driver
ports = record {
  SerialError = Unit;
  IoError = Unit;
  DataBits = ℕ;
  Parity = Unit;
  StopBits = ℕ;
  eight = 8;
  no_parity = tt;
  one = 1;
  Port = Port;
  Machine = Unit;
  open_port = λ name baud bits parity stop wait m. (ok ([], []), m);
  read_exact = read_port;
  write_all = λ bytes (s, out). (ok tt, (s, out ++ bytes));
  flush = λ p. (ok tt, p);
}

read_port-gives :
    (n : ℕ) (p : Port)
    → n ≤ length p.0
    → (p' : Port) × (read_port n p ≡ (ok (take n p.0), p')) × (p'.0 ≡ drop n p.0)
read_port-gives n (s, out) h = ((drop n s, out), rw (le→ltb (length s) n h), refl)

read_port-takes :
    (n : ℕ) (p p' : Port) {bytes : List ℕ}
    → read_port n p ≡ (ok bytes, p')
    → (bytes ≡ take n p.0) × (p'.0 ≡ drop n p.0)
read_port-takes n (s, out) p' {bytes} e = go (ltb (length s) n) e
  where
    go :
        (b : Bool)
        → ◌≡◌ {A = Fallible (Unit {0}) (List ℕ) × Port}
            (if b then (err tt, (s, out)) else (ok (take n s), (drop n s, out)))
            (ok bytes, p')
        → (bytes ≡ take n s) × (p'.0 ≡ drop n s)
    go true k = absurd (err-ne-ok (ap (λ p. p.0) k))
    go false k = (sym (ok-injective (ap (λ p. p.0) k)), sym (ap (λ p. p.1.0) k))

line : Line ports
line = record {
  buffered = record { pending = λ p. p.0; gives = read_port-gives; takes = read_port-takes };
  taken = λ p. p.1;
  written = λ bytes p p' e. sym (ap (λ q. q.1.1) e);
  flushed = λ p p' e. sym (ap (λ q. q.1.1) e);
}

write_frame-read_frame_example :
    (reader' : Port) × (read_frame ports (encode frame ++ 5 ∷ [], []) ≡ (ok frame, reader'))
    × (reader'.0 ≡ 5 ∷ [])
unfolding line write_frame
write_frame-read_frame_example =
    write_frame-read_frame ports line frame ([], []) ([], encode frame) (encode frame ++ 5 ∷ [], [])
      (5 ∷ []) frame-IsValid refl refl refl

-- A millisecond clock that nothing else happens on.
abbrev sleep : Wires → Wires
sleep w = record w { now = w.now + 5 }

sleep-IsBytes :
    (s : Side) (w : Wires) → All IsBytes (inbound s w) → All IsBytes (inbound s (sleep w))
sleep-IsBytes left w h = h
sleep-IsBytes right w h = h

runs : Runs ports sleep
runs = record { ticks = λ w. omega arith; bytes = sleep-IsBytes }

abbrev ends : MockSerialEndpoint × MockSerialEndpoint
ends = pair 20

written-Reads_example :
    (w' : Wires) × Reads ports sleep ends.1
      (written ports ends.0 (frame ∷ frame ∷ []) (no_wires 0))
      (frame ∷ frame ∷ [])
      w'
    × (inbound ends.1.side w' ≡ [])
unfolding pair
written-Reads_example =
    written-Reads ports sleep ends.0 ends.1 (frame ∷ frame ∷ []) (no_wires 0) refl refl
      (frame-IsValid, (frame-IsValid, tt))

read_frame-ne-stuck_example : (Mock.read_frame ports sleep ends.0 5 (no_wires 0)).0 ≢ stuck
unfolding pair
read_frame-ne-stuck_example =
    read_frame-ne-stuck ports sleep runs ends.0 4 (no_wires 0) tt (omega arith)
