-- ===== src/Examples/Channels.antt =====
-- examples/tcp_master.rs, examples/serial_master.rs and examples/tcp_outstation.rs: the channels of the
-- programs, the link that is tried again, and the loop that serves a connection. What `to_string` and
-- `Debug` print is a parameter; messages to the user are left out.
use dnp3_rust_lib.Prelude.{ℕ, zero, suc, String, List, [], ◌∷◌}
use dnp3_rust_lib.Core.Error
use dnp3_rust_lib.Core.Error.{Result}
use dnp3_rust_lib.Core.Fallible.{Fallible, ok, err, stuck, Action, ◌>>◌, map_err}
use dnp3_rust_lib.Core.Address.{Address}
use dnp3_rust_lib.Link.ControlField.{LinkFunction}
use dnp3_rust_lib.Link.LinkFrame.{LinkFrame}
use dnp3_rust_lib.Outstation.{Database, OutstationSession, handle_frame}
use dnp3_rust_lib.Master.{MasterChannel, MasterError, transport}
use dnp3_rust_lib.Tcp.{
  Network, Duration, TcpError, TcpConnection, connection_read_frame, connection_write_frame,
}
use dnp3_rust_lib.Tcp.Client as Client
use dnp3_rust_lib.Serial as Serial
use dnp3_rust_lib.Serial.{Driver}
use dnp3_rust_lib.Examples.Startup.{run_link_startup}

module _ (D : Driver) (show : Serial.Error D → String) where
  -- `SerialMasterChannel`
  abbrev pub serial_master_channel : MasterChannel
  serial_master_channel = record {
    State = Serial.SerialTransport D;
    send_frame = λ frame. map_err (λ error. transport (show error)) (Serial.write_frame D frame);
    receive_frame = map_err (λ error. transport (show error)) (Serial.read_frame D);
  }

module _ (N : Network) (show : TcpError N → String) (debug : LinkFunction → String) where
  abbrev pub shown : TcpError N → MasterError
  shown error = transport (show error)

  -- `TcpMasterChannel`
  abbrev pub tcp_master_channel : MasterChannel
  tcp_master_channel = record {
    State = Client.World N;
    send_frame = λ frame. map_err shown (Client.send_frame N frame);
    receive_frame = map_err shown (Client.receive_frame N);
  }

  unfoldable pub establish_link : Address → Address → Action (Client.World N) MasterError (Unit {0})
  unfolding run_link_startup
  establish_link outstation master =
      map_err shown (Client.connect N)
      >> run_link_startup debug tcp_master_channel outstation master

  -- `wait_for_link`: a round for each try.
  unfoldable pub wait_for_link :
      ℕ → Address → Address → Duration → Action (Client.World N) MasterError (Unit {0})
  unfolding establish_link
  wait_for_link zero outstation master retry_delay w = (stuck, w)
  wait_for_link (suc fuel) outstation master retry_delay w =
      let (result, w') = establish_link outstation master w in
      let later =
        wait_for_link fuel outstation master retry_delay (Client.sleep N retry_delay w') in
      elim result [ ok u ↦ (ok u, w') | err error ↦ later | stuck ↦ (stuck, w') ]

module _ (N : Network) where
  -- The `for` over the responses, which ends at the first that cannot be written.
  unfoldable pub write_responses : List LinkFrame → TcpConnection N → TcpConnection N
  write_responses [] c = c
  write_responses (response ∷ responses) c =
      let (result, c') = connection_write_frame N response c in
      let later = write_responses responses c' in
      elim result [ ok u ↦ later | err error ↦ c' | stuck ↦ c' ]

  -- A frame that the connection has read, as the loop of tcp_outstation.rs treats it: an error of the
  -- session is only printed.
  unfoldable pub serve_frame :
      Database
      → LinkFrame
      → OutstationSession × TcpConnection N
      → OutstationSession × TcpConnection N
  unfolding write_responses
  serve_frame db frame (s, c) =
      let (responses, s') = handle_frame s db frame in
      elim responses [
        | Error.ok frames ↦ (s', write_responses frames c)
        | Error.err error ↦ (s', c)
        | Error.stuck ↦ (s', c)
      ]

  -- A round of the loop of a connection behind its read, which ends the loop with its error.
  abbrev pub after_read :
      Action (OutstationSession × TcpConnection N) (TcpError N) (Unit {0})
      → Database
      → OutstationSession
      → Fallible (TcpError N) LinkFrame × TcpConnection N
      → Fallible (TcpError N) (Unit {0}) × (OutstationSession × TcpConnection N)
  after_read later db s (ok frame, c) = later (serve_frame db frame (s, c))
  after_read later db s (err error, c) = (err error, (s, c))
  after_read later db s (stuck, c) = (stuck, (s, c))

  -- The loop of a connection. Other tasks may write to the database: `database` says what it is when so
  -- many rounds are left.
  unfoldable pub serve :
      ℕ → (ℕ → Database) → Action (OutstationSession × TcpConnection N) (TcpError N) (Unit {0})
  unfolding serve_frame
  serve zero database (s, c) = (stuck, (s, c))
  serve (suc fuel) database (s, c) =
      after_read (serve fuel database) (database fuel) s (connection_read_frame N c)
