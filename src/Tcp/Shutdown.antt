-- ===== src/Tcp/Shutdown.antt =====
-- The life of a client as steps: its calls, in any order. A shutdown is final.
use dnp3_rust_lib.Prelude.{◌≡◌, refl, sym, ap, Bool, true, false, Option, none, some, if◌then◌else◌}
use mathlib.Core.Path.{subst}
use dnp3_rust_lib.Core.Fallible.{Fallible, ok, err, stuck, >>=-of_err}
use dnp3_rust_lib.Link.LinkFrame.{LinkFrame}
use dnp3_rust_lib.Tcp.{
  shutdown, Network, TcpError, TcpConnection, connection_read_frame, connection_write_frame,
  connection_shutdown,
}
use dnp3_rust_lib.Tcp.Client.{
  World, connect, disconnect, sleep, reconnect, send_frame, receive_frame, retry_write, retry_read,
  first_try, shut_down,
}

module _ (N : Network) where
  -- A call of a method, whatever its result.
  pub data Step : World N → World N → Type 0 where
    connects : {w : World N} → Step w (connect N w).1
    disconnects : {w : World N} → Step w (disconnect N w)
    reconnects : {w : World N} → Step w (reconnect N w).1
    sends : {w : World N} (frame : LinkFrame) → Step w (send_frame N frame w).1
    receives : {w : World N} → Step w (receive_frame N w).1
    shuts_down : {w : World N} → Step w (shut_down N w).1

  pub data Steps : World N → World N → Type 0 where
    over : {w : World N} → Steps w w
    followed : {w w1 w' : World N} → Step w w1 → Steps w1 w' → Steps w w'

  -- The client has been told to shut down.
  abbrev pub Closed : World N → Type 0
  Closed (t, n) = t.shutdown ≡ true

  -- Every call that needs a connection is refused.
  pub record Refuses (w : World N) : Type 0 where
    pub connecting : (connect N w).0 ≡ err shutdown
    pub reconnecting : (reconnect N w).0 ≡ err shutdown
    pub sending : (frame : LinkFrame) → (send_frame N frame w).0 ≡ err shutdown
    pub receiving : (receive_frame N w).0 ≡ err shutdown

  if-of_true : {A : Type 0} (b : Bool) (x y : A) → b ≡ true → (if b then x else y) ≡ x
  if-of_true true x y h = refl
  if-of_true false x y h = cc

  connect-Closed : (w : World N) → Closed w → connect N w ≡ (err shutdown, w)
  unfolding connect
  connect-Closed (t, n) h = if-of_true t.shutdown _ _ h

  reconnect-Closed :
      (w : World N)
      → Closed w
      → reconnect N w ≡ (err shutdown, sleep N w.0.config.reconnect_delay (disconnect N w))
  unfolding reconnect disconnect sleep
  reconnect-Closed (t, n) h = connect-Closed _ h

  send_frame-Closed :
      (frame : LinkFrame) (w : World N) → Closed w → send_frame N frame w ≡ (err shutdown, w)
  unfolding send_frame
  send_frame-Closed frame w h =
      >>=-of_err (connect N)
        (λ _. first_try N (connection_write_frame N frame) (retry_write N frame)) w
        (connect-Closed w h)

  receive_frame-Closed : (w : World N) → Closed w → receive_frame N w ≡ (err shutdown, w)
  unfolding receive_frame
  receive_frame-Closed w h =
      >>=-of_err (connect N) (λ _. first_try N (connection_read_frame N) (retry_read N)) w
        (connect-Closed w h)

  Closed-Refuses : (w : World N) → Closed w → Refuses w
  Closed-Refuses w h = record {
    connecting = ap (λ p. p.0) (connect-Closed w h);
    reconnecting = ap (λ p. p.0) (reconnect-Closed w h);
    sending = λ frame. ap (λ p. p.0) (send_frame-Closed frame w h);
    receiving = ap (λ p. p.0) (receive_frame-Closed w h);
  }

  -- A shutdown closes the client whether the stream's own shutdown succeeds or fails.
  shut_down-Closed : (w : World N) → Closed (shut_down N w).1
  unfolding shut_down
  shut_down-Closed (t, n) = go t.connection
    where
      ended :
          (c' : TcpConnection N) (result : Fallible (TcpError N) (Unit {0}))
          → Closed
              (elim result as (λ x. Fallible (TcpError N) (Unit {0}) × World N) [
                | ok u ↦ (ok tt, (record t { shutdown = true; connection = none }, n))
                | err error ↦ (err error, (record t { shutdown = true; connection = some c' }, n))
                | stuck ↦ (stuck, (record t { shutdown = true; connection = some c' }, n))
              ]).1
      ended c' (ok u) = refl
      ended c' (err error) = refl
      ended c' stuck = refl

      go :
          (connection : Option (TcpConnection N))
          → Closed
              (elim connection as (λ x. Fallible (TcpError N) (Unit {0}) × World N) [
                | none ↦ (ok tt, (record t { shutdown = true }, n))
                | some c ↦
                    let (result, c') = connection_shutdown N c in
                    elim result as (λ x. Fallible (TcpError N) (Unit {0}) × World N) [
                      | ok u ↦ (ok tt, (record t { shutdown = true; connection = none }, n))
                      | err error ↦
                          (err error, (record t { shutdown = true; connection = some c' }, n))
                      | stuck ↦ (stuck, (record t { shutdown = true; connection = some c' }, n))
                    ]
              ]).1
      go none = refl
      go (some c) = ended (connection_shutdown N c).1 (connection_shutdown N c).0

  Step-Closed : {w w' : World N} → Step w w' → Closed w → Closed w'
  unfolding disconnect sleep
  Step-Closed (connects {w = w}) h = subst Closed (ap (λ p. p.1) (sym (connect-Closed w h))) h
  Step-Closed (disconnects {w = w}) h = h
  Step-Closed (reconnects {w = w}) h = subst Closed (ap (λ p. p.1) (sym (reconnect-Closed w h))) h
  Step-Closed (sends {w = w} frame) h =
      subst Closed (ap (λ p. p.1) (sym (send_frame-Closed frame w h))) h
  Step-Closed (receives {w = w}) h = subst Closed (ap (λ p. p.1) (sym (receive_frame-Closed w h))) h
  Step-Closed (shuts_down {w = w}) h = shut_down-Closed w

  Steps-Closed : {w w' : World N} → Steps w w' → Closed w → Closed w'
  Steps-Closed over h = h
  Steps-Closed (followed s rest) h = Steps-Closed rest (Step-Closed s h)

  -- After a call of `shutdown`, also a failed one, and whatever calls follow it, the client refuses
  -- to connect, to reconnect, to send and to receive, with the error that says so.
  pub shut_down-Refuses : (w w' : World N) → Steps (shut_down N w).1 w' → Refuses w'
  shut_down-Refuses w w' steps = Closed-Refuses w' (Steps-Closed steps (shut_down-Closed w))
