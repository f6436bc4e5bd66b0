-- ===== src/Tcp.antt =====
-- crates/dnp3-tcp/src/lib.rs: frames on a TCP stream, and the client that connects again. What the
-- sockets and the timer of tokio do is a parameter. A duration is its milliseconds.
pub mod Framing
pub mod Client
pub mod Shutdown
pub mod Retries
use dnp3_rust_lib.Prelude.{
  ℕ, ◌*◌, ◌-◌, String, Bool, true, false, not, Option, none, some, List, [], ◌∷◌, ◌++◌, take,
  get_or, ltb, if◌then◌else◌, ◌==◌,
}
use dnp3_rust_lib.Prelude.Bytes.{bytes_eq}
use dnp3_rust_lib.Core.Error.{ProtocolError, invalid_start_bytes, invalid_length}
use dnp3_rust_lib.Core.Fallible.{
  Fallible, ok, err, stuck, from_result, Action, ◌>>=◌, ◌>>◌, pure, lift, map_err,
}
use dnp3_rust_lib.Link.LinkFrame
use dnp3_rust_lib.Link.LinkFrame.{LinkFrame, start_bytes, encoded_payload_len}

abbrev pub Duration : Type 0
Duration = ℕ

-- `Duration::from_secs`
abbrev pub from_secs : ℕ → Duration
from_secs seconds = seconds * 1000

pub data TcpTransportError (IoError : Type 0) : Type 0 where
  protocol : ProtocolError → TcpTransportError IoError
  io : IoError → TcpTransportError IoError
  timeout : TcpTransportError IoError
  shutdown : TcpTransportError IoError

-- The error of an operation under tokio's `timeout`.
pub data Timed (IoError : Type 0) : Type 0 where
  elapsed : Timed IoError
  failed : IoError → Timed IoError

-- The `.map_err(|_| Timeout)??` on such an operation.
abbrev pub from_timed : {IoError : Type 0} → Timed IoError → TcpTransportError IoError
from_timed elapsed = timeout
from_timed (failed error) = io error

-- tokio's streams, listeners and timer: what their methods return, and the stream or the network
-- after them. `read_exact` and `connect` run under a timeout.
pub record Network : Type 1 where
  pub IoError : Type 0
  pub Stream : Type 0
  pub Net : Type 0
  pub read_exact : Duration → ℕ → Action Stream (Timed IoError) (List ℕ)
  pub write_all : List ℕ → Action Stream IoError (Unit {0})
  pub flush : Action Stream IoError (Unit {0})
  pub shutdown : Action Stream IoError (Unit {0})
  pub connect : Duration → String → Action Net (Timed IoError) Stream
  pub sleep : Duration → Net → Net
  pub Listener : Type 0
  pub bind : String → Action Net IoError Listener
  pub accept : Listener → Action Net IoError Stream

pub record TcpClientConfig : Type 0 where
  pub endpoint : String
  pub connect_timeout : Duration
  pub read_timeout : Duration
  pub reconnect_delay : Duration

-- `TcpClientConfig::new`
abbrev pub new_config : String → TcpClientConfig
new_config endpoint = record {
  endpoint = endpoint;
  connect_timeout = from_secs 5;
  read_timeout = from_secs 5;
  reconnect_delay = from_secs 1;
}

pub record TcpServerConfig : Type 0 where
  pub bind : String
  pub read_timeout : Duration

-- `TcpServerConfig::new`
abbrev pub new_server_config : String → TcpServerConfig
new_server_config bind = record { bind = bind; read_timeout = from_secs 5 }

module _ (N : Network) where
  abbrev pub TcpError : Type 0
  TcpError = TcpTransportError N.IoError

  -- `read_frame` from the length byte on.
  unfoldable pub read_rest : Duration → List ℕ → Action N.Stream TcpError LinkFrame
  read_rest read_timeout fixed stream =
      let length' = get_or fixed 2 0 in
      if ltb length' 5
      then (err (protocol (invalid_length 5 length')), stream)
      else (let rest_len = encoded_payload_len (length' - 5) in
          ((if not (rest_len == 0)
                then map_err from_timed (N.read_exact read_timeout rest_len)
                else pure [])
              >>= λ rest. lift (from_result protocol (LinkFrame.decode (fixed ++ rest))))
            stream)

  -- `read_frame`
  unfoldable pub read_frame : Duration → Action N.Stream TcpError LinkFrame
  unfolding read_rest
  read_frame read_timeout = map_err from_timed (N.read_exact read_timeout 10) >>= λ fixed. λ stream.
      if not (bytes_eq (take 2 fixed) start_bytes)
      then (err (protocol invalid_start_bytes), stream)
      else read_rest read_timeout fixed stream

  pub record TcpConnection : Type 0 where
    pub stream : N.Stream
    pub read_timeout : Duration

  -- A method of the connection's stream.
  abbrev pub on_stream : {A : Type 0} → Action N.Stream TcpError A → Action TcpConnection TcpError A
  on_stream action c =
      let (result, stream) = action c.stream in (result, record c { stream = stream })

  -- `TcpConnection::read_frame`
  unfoldable pub connection_read_frame : Action TcpConnection TcpError LinkFrame
  unfolding read_frame
  connection_read_frame c = on_stream (read_frame c.read_timeout) c

  -- `TcpConnection::write_frame`
  unfoldable pub connection_write_frame : LinkFrame → Action TcpConnection TcpError (Unit {0})
  connection_write_frame frame =
      on_stream (map_err io (N.write_all (LinkFrame.encode frame)) >> map_err io N.flush)

  -- `TcpConnection::shutdown`
  unfoldable pub connection_shutdown : Action TcpConnection TcpError (Unit {0})
  connection_shutdown = on_stream (map_err io N.shutdown)

  pub record TcpServer : Type 0 where
    pub listener : N.Listener
    pub read_timeout : Duration

  -- `TcpServer::bind`
  unfoldable pub bind : TcpServerConfig → Action N.Net TcpError TcpServer
  bind config = map_err io (N.bind config.bind) >>= λ listener.
      pure (record { listener = listener; read_timeout = config.read_timeout })

  -- `TcpServer::accept`
  unfoldable pub accept : TcpServer → Action N.Net TcpError TcpConnection
  accept server = map_err io (N.accept server.listener) >>= λ stream.
      pure (record { stream = stream; read_timeout = server.read_timeout })
