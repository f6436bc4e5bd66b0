-- ===== src/Tests/Tcp.antt =====
-- A TCP client on concrete streams.
use dnp3_rust_lib.Prelude.{
  ℕ, ◌+◌, ◌≤◌, ◌≡◌, refl, sym, ap, All-append, Bool, true, false, List, [], ◌∷◌, ◌++◌, length, take,
  drop, ltb, le→ltb, arith, if◌then◌else◌,
}
use dnp3_rust_lib.Prelude.Bytes.{IsByte, IsBytes}
use dnp3_rust_lib.Core.Fallible.{Fallible, ok, err, Action, err-ne-ok, ok-injective}
use dnp3_rust_lib.Core.Address
use dnp3_rust_lib.Core.Reader
use dnp3_rust_lib.Core.Reader.{read_u8}
use dnp3_rust_lib.Core.Crc.{verify_crc, decode_crc_blocks}
use dnp3_rust_lib.Link.ControlField
use dnp3_rust_lib.Link.LinkFrame
use dnp3_rust_lib.Tests.Link.{capture, capture-IsBytes, reset_frame}
use dnp3_rust_lib.Link.ControlField.{outstation_to_master, primary, PrimaryFunction}
use dnp3_rust_lib.Link.LinkFrame.{LinkFrame, encode}
use dnp3_rust_lib.Link.LinkFrame.RoundTrip.{IsValid}
use dnp3_rust_lib.Tcp.{
  Duration, Network, Timed, failed, new_config, TcpConnection, connection_read_frame,
  connection_write_frame,
}
use dnp3_rust_lib.Tcp.Client.{World, new_client, connect, send_frame, shut_down}
use dnp3_rust_lib.Tcp.Framing.{
  Streams, incoming, connection_read_frame-encode, connection_read_frame_sound,
}
use dnp3_rust_lib.Tcp.Shutdown.{over, followed, connects, sends, Refuses, shut_down-Refuses}
use dnp3_rust_lib.Tcp.Retries.{Done, send_frame-Done}

-- A read of a list of bytes, which fails when too few are left.
abbrev read_list : Duration → ℕ → Action (List ℕ) (Timed (Unit {0})) (List ℕ)
read_list read_timeout n s =
    if ltb (length s) n then (err (failed tt), s) else (ok (take n s), drop n s)

pub read_list-gives :
    (t : Duration) (n : ℕ) (s : List ℕ)
    → n ≤ length s
    → (s' : List ℕ) × (read_list t n s ≡ (ok (take n s), s')) × (s' ≡ drop n s)
read_list-gives t n s h = (drop n s, rw (le→ltb (length s) n h), refl)

pub read_list-takes :
    (t : Duration) (n : ℕ) (s s' : List ℕ) {bytes : List ℕ}
    → read_list t n s ≡ (ok bytes, s')
    → (bytes ≡ take n s) × (s' ≡ drop n s)
read_list-takes t n s s' {bytes} e = go (ltb (length s) n) e
  where
    go :
        (b : Bool)
        → ◌≡◌ {A = Fallible (Timed (Unit {0})) (List ℕ) × List ℕ}
            (if b then (err (failed tt), s) else (ok (take n s), drop n s))
            (ok bytes, s')
        → (bytes ≡ take n s) × (s' ≡ drop n s)
    go true k = absurd (err-ne-ok (ap (λ p. p.0) k))
    go false k = (sym (ok-injective (ap (λ p. p.0) k)), sym (ap (λ p. p.1) k))

-- A network whose streams are lists of bytes, and on which every connection is opened.
abbrev pub lists : Network
lists = record {
  IoError = Unit;
  Stream = List ℕ;
  Net = ℕ;
  read_exact = read_list;
  write_all = λ bytes s. (ok tt, s);
  flush = λ s. (ok tt, s);
  shutdown = λ s. (err tt, s);
  connect = λ t endpoint n. (ok [], n + 1);
  sleep = λ t n. n;
  Listener = Unit;
  bind = λ endpoint n. (ok tt, n);
  accept = λ listener n. (ok [], n);
}

unfoldable pub streams : Streams lists
streams read_timeout = record {
  pending = λ s. s;
  gives = read_list-gives read_timeout;
  takes = λ n s s' e. read_list-takes read_timeout n s s' e;
}

abbrev pub frame : LinkFrame
frame = record {
  control = record {
    direction = outstation_to_master;
    fcb = false;
    fcv = false;
    function = primary PrimaryFunction.unconfirmed_user_data;
  };
  destination = Address.new 1;
  source = Address.new 2;
  payload = 1 ∷ 2 ∷ 3 ∷ [];
}

pub frame-IsValid : IsValid frame
frame-IsValid = record { destination = omega arith; source = omega arith; payload = omega arith }

abbrev connection : TcpConnection lists
connection = record { stream = encode frame ++ 5 ∷ 100 ∷ []; read_timeout = 1000 }

connection_read_frame-encode_example :
    (c' : TcpConnection lists) × (connection_read_frame lists connection ≡ (ok frame, c'))
    × (incoming lists streams c' ≡ 5 ∷ 100 ∷ [])
unfolding streams
connection_read_frame-encode_example =
    connection_read_frame-encode lists streams frame connection (5 ∷ 100 ∷ []) frame-IsValid refl

-- The capture of a reset, and one byte of the next frame.
abbrev hearing : TcpConnection lists
hearing = record { stream = capture ++ 5 ∷ []; read_timeout = 1000 }

heard :
    connection_read_frame lists hearing
    ≡ (ok reset_frame, record { stream = 5 ∷ []; read_timeout = 1000 })
unfolding connection_read_frame LinkFrame.decode verify_crc read_u8 Reader.new ControlField.decode
    Address.decode decode_crc_blocks
heard = refl

last_byte : IsBytes (5 ∷ [])
last_byte = (omega arith, tt)

heard-IsBytes : IsBytes (capture ++ 5 ∷ [])
heard-IsBytes = All-append IsByte capture (5 ∷ []) capture-IsBytes last_byte

connection_read_frame_sound_example : capture ++ 5 ∷ [] ≡ encode reset_frame ++ 5 ∷ []
unfolding streams
connection_read_frame_sound_example =
    connection_read_frame_sound lists streams reset_frame hearing
      (record { stream = 5 ∷ []; read_timeout = 1000 }) heard-IsBytes heard

abbrev client : World lists
client = (new_client lists (new_config "127.0.0.1:20000"), 0)

shut_down-Refuses_example :
    Refuses lists (send_frame lists frame (connect lists (shut_down lists client).1).1).1
shut_down-Refuses_example =
    shut_down-Refuses lists client _ (followed connects (followed (sends frame) over))

sent : send_frame lists frame client ≡ (ok tt, (send_frame lists frame client).1)
unfolding send_frame new_client connection_write_frame
sent = refl

send_frame-Done_example :
    Done lists (connection_write_frame lists frame) tt (send_frame lists frame client).1
send_frame-Done_example = send_frame-Done lists frame client (send_frame lists frame client).1 sent
