-- ===== src/Serial.antt =====
-- crates/dnp3-serial/src/lib.rs: frames on a serial port, and the mock endpoints of the tests. The
-- driver of the operating system, as the serialport crate gives it, is a parameter.
pub mod Framing
pub mod Mock
pub mod Pair
use dnp3_rust_lib.Prelude.{
  ℕ, ◌*◌, ◌-◌, String, not, List, [], ◌∷◌, ◌++◌, take, get_or, ltb, if◌then◌else◌,
}
use dnp3_rust_lib.Prelude.Bytes.{bytes_eq}
use dnp3_rust_lib.Core.Error.{ProtocolError, invalid_start_bytes, invalid_length}
use dnp3_rust_lib.Core.Fallible.{
  Fallible, ok, err, stuck, from_result, Action, ◌>>=◌, ◌>>◌, pure, lift, map_err,
}
use dnp3_rust_lib.Link.LinkFrame
use dnp3_rust_lib.Link.LinkFrame.{LinkFrame, start_bytes, encoded_payload_len}

pub data SerialTransportError (SerialError IoError : Type 0) : Type 0 where
  protocol : ProtocolError → SerialTransportError SerialError IoError
  serial : SerialError → SerialTransportError SerialError IoError
  io : IoError → SerialTransportError SerialError IoError
  timeout : SerialTransportError SerialError IoError
  closed : SerialTransportError SerialError IoError

-- The serialport crate: its types, and what its methods return with the port after them.
pub record Driver : Type 1 where
  pub SerialError : Type 0
  pub IoError : Type 0
  pub DataBits : Type 0
  pub Parity : Type 0
  pub StopBits : Type 0
  pub eight : DataBits
  pub no_parity : Parity
  pub one : StopBits
  pub Port : Type 0
  pub Machine : Type 0
  pub open_port : String → ℕ → DataBits → Parity → StopBits → ℕ → Action Machine SerialError Port
  pub read_exact : ℕ → Action Port IoError (List ℕ)
  pub write_all : List ℕ → Action Port IoError (Unit {0})
  pub flush : Action Port IoError (Unit {0})

module _ (D : Driver) where
  abbrev pub SerialTransport : Type 0
  SerialTransport = D.Port

  abbrev pub Error : Type 0
  Error = SerialTransportError D.SerialError D.IoError

  -- The timeout is in milliseconds.
  pub record SerialConfig : Type 0 where
    pub port_name : String
    pub baud_rate : ℕ
    pub data_bits : D.DataBits
    pub parity : D.Parity
    pub stop_bits : D.StopBits
    pub timeout : ℕ

  -- `SerialConfig::new`
  unfoldable pub new_config : String → ℕ → SerialConfig
  new_config port_name baud_rate = record {
    port_name = port_name;
    baud_rate = baud_rate;
    data_bits = D.eight;
    parity = D.no_parity;
    stop_bits = D.one;
    timeout = 1000;
  }

  -- `SerialTransport::open`
  unfoldable pub open_port : SerialConfig → Action D.Machine Error SerialTransport
  open_port config = map_err serial (
      D.open_port config.port_name config.baud_rate config.data_bits config.parity config.stop_bits
        config.timeout)

  -- `read_frame_blocking` from the length byte on.
  unfoldable pub read_rest_blocking : List ℕ → Action D.Port Error LinkFrame
  read_rest_blocking fixed port =
      let length' = get_or fixed 2 0 in
      if ltb length' 5
      then (err (protocol (invalid_length 5 length')), port)
      else (map_err io (D.read_exact (encoded_payload_len (length' - 5))) >>= λ rest.
            lift (from_result protocol (LinkFrame.decode (fixed ++ rest))))
          port

  unfoldable pub read_frame_blocking : Action D.Port Error LinkFrame
  unfolding read_rest_blocking
  read_frame_blocking = map_err io (D.read_exact 10) >>= λ fixed. λ port.
      if not (bytes_eq (take 2 fixed) start_bytes)
      then (err (protocol invalid_start_bytes), port)
      else read_rest_blocking fixed port

  -- `SerialTransport::read_frame`
  unfoldable pub read_frame : Action SerialTransport Error LinkFrame
  unfolding read_frame_blocking
  read_frame = read_frame_blocking

  -- `SerialTransport::write_frame`
  unfoldable pub write_frame : LinkFrame → Action SerialTransport Error (Unit {0})
  write_frame frame = map_err io (D.write_all (LinkFrame.encode frame)) >> map_err io D.flush
