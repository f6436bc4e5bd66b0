-- ===== src/Tcp/Retries.antt =====
-- What a successful call of the client has done, on the first try or on the second.
use dnp3_rust_lib.Prelude.{◌≡◌, refl, sym, ap, ◌∙◌, Option, none, some}
use dnp3_rust_lib.Core.Fallible.{
  Fallible, ok, err, stuck, Action, ◌>>◌, >>=-eq-ok, err-ne-ok, stuck-ne-ok,
}
use dnp3_rust_lib.Link.LinkFrame.{LinkFrame}
use dnp3_rust_lib.Tcp.{
  timeout, shutdown, Network, TcpError, TcpConnection, connection_read_frame,
  connection_write_frame,
}
use dnp3_rust_lib.Tcp.Client.{
  TcpClient, World, connect, reconnect, send_frame, receive_frame, retry_write, retry_read,
  first_try, on_connection,
}

module _ (N : Network) where
  -- The method has succeeded on a connection, which is the client's from then on.
  pub record Done {A : Type 0} (action : Action (TcpConnection N) (TcpError N) A) (value : A)
      (w' : World N) : Type 0 where
    pub before : TcpConnection N
    pub after : TcpConnection N
    pub succeeds : action before ≡ (ok value, after)
    pub held : w'.0.connection ≡ some after

  module _ {A : Type 0} (action : Action (TcpConnection N) (TcpError N) A) where
    Done-of :
        (w' : World N) (t : TcpClient N) (n : N.Net) (c : TcpConnection N) {value : A}
        (result : Fallible (TcpError N) A)
        → (action c).0 ≡ result
        → ◌≡◌ {A = Fallible (TcpError N) A × World N}
            (result, (record t { connection = some (action c).1 }, n))
            (ok value, w')
        → Done action value w'
    Done-of w' t n c result r e = record {
      before = c;
      after = (action c).1;
      succeeds = λ i. ((r ∙ ap (λ p. p.0) e) i, (action c).1);
      held = ap (λ p. p.1.0.connection) (sym e);
    }

    on_connection-Done :
        (w w' : World N) {value : A}
        → on_connection N action w ≡ (ok value, w')
        → Done action value w'
    on_connection-Done (t, n) w' {value} h = go t.connection h
      where
        go :
            (connection : Option (TcpConnection N))
            → (elim connection as (λ x. Fallible (TcpError N) A × World N) [
              | none ↦ (err shutdown, (t, n))
              | some c ↦
                  let (result, c') = action c in (result, (record t { connection = some c' }, n))
            ])
              ≡ (ok value, w')
            → Done action value w'
        go none k = absurd (err-ne-ok (ap (λ p. p.0) k))
        go (some c) k = Done-of w' t n c (action c).0 refl k

    -- A first try that is carried on by a `next` which succeeds at once or on the client's new connection.
    first_try-Done :
        (next : Fallible (TcpError N) A → Action (World N) (TcpError N) A) (w w' : World N)
        {value : A}
        → ((t : TcpClient N) (n : N.Net) (c : TcpConnection N)
            → next (action c).0 (record t { connection = some (action c).1 }, n) ≡ (ok value, w')
            → Done action value w')
        → first_try N action next w ≡ (ok value, w')
        → Done action value w'
    first_try-Done next (t, n) w' {value} carry h = go t.connection h
      where
        go :
            (connection : Option (TcpConnection N))
            → (elim connection as (λ x. Fallible (TcpError N) A × World N) [
              | none ↦ (err shutdown, (t, n))
              | some c ↦
                  let (result, c') = action c in next result (record t { connection = some c' }, n)
            ])
              ≡ (ok value, w')
            → Done action value w'
        go none k = absurd (err-ne-ok (ap (λ p. p.0) k))
        go (some c) k = carry t n c k

    again-Done :
        (w w' : World N) {value : A}
        → (reconnect N >> on_connection N action) w ≡ (ok value, w')
        → Done action value w'
    again-Done w w' h =
        let (u, w1, e, k) = >>=-eq-ok (reconnect N) (λ _. on_connection N action) w h in
        on_connection-Done w1 w' k

  retry_write-Done :
      (frame : LinkFrame) (w' : World N) {u : Unit {0}} (t : TcpClient N) (n : N.Net)
      (c : TcpConnection N) (result : Fallible (TcpError N) (Unit {0}))
      → (connection_write_frame N frame c).0 ≡ result
      → retry_write N frame result
          (record t { connection = some (connection_write_frame N frame c).1 }, n)
        ≡ (ok u, w')
      → Done (connection_write_frame N frame) u w'
  unfolding retry_write
  retry_write-Done frame w' t n c (ok v) r k =
      Done-of (connection_write_frame N frame) w' t n c (ok v) r k
  retry_write-Done frame w' t n c (err error) r k =
      again-Done (connection_write_frame N frame)
        (record t { connection = some (connection_write_frame N frame c).1 }, n) w' k
  retry_write-Done frame w' t n c stuck r k = absurd (stuck-ne-ok (ap (λ p. p.0) k))

  retry_read-Done :
      (w' : World N) {frame : LinkFrame} (t : TcpClient N) (n : N.Net) (c : TcpConnection N)
      (result : Fallible (TcpError N) LinkFrame)
      → (connection_read_frame N c).0 ≡ result
      → retry_read N result (record t { connection = some (connection_read_frame N c).1 }, n)
        ≡ (ok frame, w')
      → Done (connection_read_frame N) frame w'
  unfolding retry_read
  retry_read-Done w' t n c (ok v) r k = Done-of (connection_read_frame N) w' t n c (ok v) r k
  retry_read-Done w' t n c (err timeout) r k = absurd (err-ne-ok (ap (λ p. p.0) k))
  retry_read-Done w' t n c (err _) r k =
      again-Done (connection_read_frame N)
        (record t { connection = some (connection_read_frame N c).1 }, n) w' k
  retry_read-Done w' t n c stuck r k = absurd (stuck-ne-ok (ap (λ p. p.0) k))

  -- When `send_frame` succeeds, on the first try or on the second, a write of the frame has succeeded on a
  -- connection, and that connection, as the write has left it, is the one that the client holds then.
  pub send_frame-Done :
      (frame : LinkFrame) (w w' : World N) {u : Unit {0}}
      → send_frame N frame w ≡ (ok u, w')
      → Done (connection_write_frame N frame) u w'
  unfolding send_frame
  send_frame-Done frame w w' h =
      let (u, w1, e, k) =
        >>=-eq-ok (connect N)
          (λ _. first_try N (connection_write_frame N frame) (retry_write N frame)) w h in
      first_try-Done (connection_write_frame N frame) (retry_write N frame) w1 w'
        (λ t n c. retry_write-Done frame w' t n c (connection_write_frame N frame c).0 refl) k

  -- When `receive_frame` returns a frame, a connection has read it, and that connection is the one that
  -- the client holds afterwards.
  pub receive_frame-Done :
      (frame : LinkFrame) (w w' : World N)
      → receive_frame N w ≡ (ok frame, w')
      → Done (connection_read_frame N) frame w'
  unfolding receive_frame
  receive_frame-Done frame w w' h =
      let (u, w1, e, k) =
        >>=-eq-ok (connect N) (λ _. first_try N (connection_read_frame N) (retry_read N)) w h in
      first_try-Done (connection_read_frame N) (retry_read N) w1 w'
        (λ t n c. retry_read-Done w' t n c (connection_read_frame N c).0 refl) k
