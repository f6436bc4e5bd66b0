-- ===== src/Master/Loopback.antt =====
-- A channel whose far end is an outstation: a sent frame is handled at once, and its answers wait in
-- a queue. The loopback channels of the crates' tests are of this kind.
use dnp3_rust_lib.Prelude.{List, [], ◌∷◌, ◌++◌}
use dnp3_rust_lib.Core.Error
use dnp3_rust_lib.Core.Fallible.{Fallible, ok, err, stuck, Action}
use dnp3_rust_lib.Link.LinkFrame.{LinkFrame}
use dnp3_rust_lib.Outstation.{Database, OutstationSession, Handled, handle_frame}
use dnp3_rust_lib.Master.{MasterChannel, MasterError, protocol, transport}

pub record Loopback : Type 0 where
  pub session : OutstationSession
  pub queue : List LinkFrame

abbrev pub answered : List LinkFrame → Handled → Fallible MasterError (Unit {0}) × Loopback
answered queue (Error.ok frames, s) = (ok tt, record { session = s; queue = queue ++ frames })
answered queue (Error.err e, s) = (err (protocol e), record { session = s; queue = queue })
answered queue (Error.stuck, s) = (stuck, record { session = s; queue = queue })

unfoldable pub send_frame : Database → LinkFrame → Action Loopback MasterError (Unit {0})
unfolding handle_frame
send_frame db frame c = answered c.queue (handle_frame c.session db frame)

abbrev dequeue : OutstationSession → List LinkFrame → Fallible MasterError LinkFrame × Loopback
dequeue s [] = (err (transport "empty"), record { session = s; queue = [] })
dequeue s (frame ∷ rest) = (ok frame, record { session = s; queue = rest })

unfoldable pub receive_frame : Action Loopback MasterError LinkFrame
receive_frame c = dequeue c.session c.queue

abbrev pub loopback : Database → MasterChannel
loopback db = record { State = Loopback; send_frame = send_frame db; receive_frame = receive_frame }
