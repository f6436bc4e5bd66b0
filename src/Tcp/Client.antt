-- ===== src/Tcp/Client.antt =====
-- `TcpClient` of crates/dnp3-tcp/src/lib.rs: the client that connects again after a failure.
use dnp3_rust_lib.Prelude.{Bool, true, false, Option, none, some, if◌then◌else◌}
use dnp3_rust_lib.Core.Fallible.{Fallible, ok, err, stuck, Action, ◌>>◌}
use dnp3_rust_lib.Link.LinkFrame.{LinkFrame}
use dnp3_rust_lib.Tcp.{
  Duration, timeout, shutdown, from_timed, Network, TcpClientConfig, TcpError, TcpConnection,
  connection_read_frame, connection_write_frame, connection_shutdown,
}

module _ (N : Network) where
  pub record TcpClient : Type 0 where
    pub config : TcpClientConfig
    pub connection : Option (TcpConnection N)
    pub shutdown : Bool

  -- `TcpClient::new`
  unfoldable pub new_client : TcpClientConfig → TcpClient
  new_client config = record { config = config; connection = none; shutdown = false }

  -- The client and the network around it.
  abbrev pub World : Type 0
  World = TcpClient × N.Net

  -- `self.connection.as_mut().ok_or(Shutdown)?` and a method of the connection.
  abbrev pub on_connection :
      {A : Type 0} → Action (TcpConnection N) (TcpError N) A → Action World (TcpError N) A
  on_connection action (t, n) = elim t.connection [
    | none ↦ (err shutdown, (t, n))
    | some c ↦ let (result, c') = action c in (result, (record t { connection = some c' }, n))
  ]

  -- The `timeout` on `TcpStream::connect`, and the new connection.
  unfoldable pub open_connection : Action World (TcpError N) (Unit {0})
  open_connection (t, n) =
      let (opened, n') = N.connect t.config.connect_timeout t.config.endpoint n in
      elim opened [
        | ok stream ↦ (
          ok tt,
          (
            record t {
              connection = some (record { stream = stream; read_timeout = t.config.read_timeout });
            },
            n',
          ),
        )
        | err error ↦ (err (from_timed error), (t, n'))
        | stuck ↦ (stuck, (t, n'))
      ]

  -- `TcpClient::connect`
  unfoldable pub connect : Action World (TcpError N) (Unit {0})
  unfolding open_connection
  connect (t, n) =
      if t.shutdown
      then (err shutdown, (t, n))
      else elim t.connection [ some c ↦ (ok tt, (t, n)) | none ↦ open_connection (t, n) ]

  unfoldable pub disconnect : World → World
  disconnect (t, n) = (record t { connection = none }, n)

  unfoldable pub sleep : Duration → World → World
  sleep delay (t, n) = (t, N.sleep delay n)

  unfoldable pub reconnect : Action World (TcpError N) (Unit {0})
  unfolding connect disconnect sleep
  reconnect (t, n) = connect (sleep t.config.reconnect_delay (disconnect (t, n)))

  -- `send_frame` from the first write on.
  unfoldable pub retry_write :
      LinkFrame → Fallible (TcpError N) (Unit {0}) → Action World (TcpError N) (Unit {0})
  unfolding reconnect
  retry_write frame (ok u) w = (ok u, w)
  retry_write frame (err error) w = (reconnect >> on_connection (connection_write_frame N frame)) w
  retry_write frame stuck w = (stuck, w)

  -- The same, where the caller goes on with the method's result, errors included. A missing connection
  -- is an error of the caller.
  abbrev pub first_try :
      {A B : Type 0}
      → Action (TcpConnection N) (TcpError N) A
      → (Fallible (TcpError N) A → Action World (TcpError N) B)
      → Action World (TcpError N) B
  first_try action next (t, n) = elim t.connection [
    | none ↦ (err shutdown, (t, n))
    | some c ↦ let (result, c') = action c in next result (record t { connection = some c' }, n)
  ]

  -- `TcpClient::send_frame`
  unfoldable pub send_frame : LinkFrame → Action World (TcpError N) (Unit {0})
  unfolding retry_write
  send_frame frame = connect >> first_try (connection_write_frame N frame) (retry_write frame)

  -- `receive_frame` from the first read on.
  unfoldable pub retry_read : Fallible (TcpError N) LinkFrame → Action World (TcpError N) LinkFrame
  unfolding reconnect
  retry_read (ok frame) w = (ok frame, w)
  retry_read (err timeout) w = (err timeout, w)
  retry_read (err _) w = (reconnect >> on_connection (connection_read_frame N)) w
  retry_read stuck w = (stuck, w)

  -- `TcpClient::receive_frame`
  unfoldable pub receive_frame : Action World (TcpError N) LinkFrame
  unfolding retry_read
  receive_frame = connect >> first_try (connection_read_frame N) retry_read

  -- `TcpClient::shutdown`: a failed shutdown of the stream leaves the connection.
  unfoldable pub shut_down : Action World (TcpError N) (Unit {0})
  shut_down (t, n) = elim t.connection [
    | none ↦ (ok tt, (record t { shutdown = true }, n))
    | some c ↦
        let (result, c') = connection_shutdown N c in
        elim result [
          | ok u ↦ (ok tt, (record t { shutdown = true; connection = none }, n))
          | err error ↦ (err error, (record t { shutdown = true; connection = some c' }, n))
          | stuck ↦ (stuck, (record t { shutdown = true; connection = some c' }, n))
        ]
  ]
