-- ===== src/Tests/Examples.antt =====
-- The programs' shared code on concrete points and lines.
use dnp3_rust_lib.Prelude.{sym, append-nil, ℕ, ◌≤◌, ◌≡◌, refl, false, String, some, List, [], ◌∷◌}
use dnp3_rust_lib.Core.Fallible.{Fallible, Action}
use dnp3_rust_lib.Core.Address
use dnp3_rust_lib.Link.ControlField.{LinkFunction}
use dnp3_rust_lib.App.Points.{BinaryInput}
use dnp3_rust_lib.Master.{MasterError, MasterSession}
use dnp3_rust_lib.Master.Loopback.{Loopback, loopback}
use dnp3_rust_lib.Examples.Points.{upsert, binary_input_index, set_binary_input}
use dnp3_rust_lib.Examples.Upsert.{find, find-upsert}
use dnp3_rust_lib.Examples.Startup.{run_link_startup, run_poll_loop}
use dnp3_rust_lib.Examples.Acknowledged.{snapshots, run_poll_loop-answered}
use dnp3_rust_lib.Examples.Text.{
  codes, is_whitespace, trim, split_whitespace, split_once, parse_unsigned, parse_i32,
}
use dnp3_rust_lib.Examples.Cli.{ok, err, Lock, split_index_value, handle_cli_line}
use dnp3_rust_lib.Examples.Forms.{IsWord, split_index_value-forms}
use dnp3_rust_lib.Tcp.{TcpConnection}
use dnp3_rust_lib.Tcp.Framing.{incoming}
use dnp3_rust_lib.Examples.Channels.{serve}
use dnp3_rust_lib.Examples.Served.{handled, encodings, Duplex, serve-handled}
use dnp3_rust_lib.Tests.Tcp.{lists, streams, frame, frame-IsValid}
use dnp3_rust_lib.Tests.Outstation.{db, db-Fits, session}

abbrev points : List BinaryInput
points = record { index = 3; flags = 0x81 } ∷ record { index = 5; flags = 0 } ∷ []

abbrev point : BinaryInput
point = record { index = 5; flags = 0x81 }

find-upsert_example : find 5 (upsert points 5 point) ≡ some point
find-upsert_example = find-upsert points 5 point 5 refl

abbrev debug : LinkFunction → String
debug function = "function"

abbrev fail : Action ℕ MasterError (Unit {0})
fail n = (Fallible.stuck, n)

run_poll_loop-answered_example :
    (c : Loopback) × (run_link_startup debug
        (loopback db)
        session.outstation
        (Address.new 1)
        (record { session = session; queue = [] })
      ≡ (Fallible.ok tt, c))
    × (enough : ℕ) × (m' : MasterSession) × (c' : Loopback) × ((fuel : ℕ)
        → enough ≤ fuel
        → run_poll_loop debug (loopback db) ℕ fail (Address.new 1) session.outstation fuel 2 c 0
          ≡ (Fallible.ok (snapshots debug db 2 0), ((m', c'), 0)))
run_poll_loop-answered_example =
    run_poll_loop-answered debug db session (Address.new 1) ℕ fail 0 2 db-Fits

plain : IsWord (codes "12") × IsWord (codes "on")
unfolding is_whitespace
plain = (((refl, refl), ((refl, refl), tt)), ((refl, refl), ((refl, refl), tt)))

split_index_value-forms_example :
    (split_index_value (codes "12=on") ≡ ok (codes "12", codes "on"))
    × (split_index_value (codes "12 on") ≡ ok (codes "12", codes "on"))
split_index_value-forms_example = split_index_value-forms (codes "12") (codes "on") plain.0 plain.1

abbrev lock : Lock
lock = record { database = db; poisoned = false }

line_handled :
    handle_cli_line lock (codes " BI 0=off ")
    ≡ (ok tt, record lock { database = set_binary_input db 0 false })
unfolding handle_cli_line trim is_whitespace split_whitespace split_once split_index_value
    parse_unsigned
line_handled = refl

line_refused :
    handle_cli_line lock (codes "ai 70000 1")
    ≡ (err (codes "invalid index '70000'; expected 0-65535"), lock)
unfolding handle_cli_line trim is_whitespace split_whitespace split_once split_index_value
    parse_unsigned parse_i32
line_refused = refl

duplex : Duplex lists streams
unfolding streams
duplex = record { written = λ t bytes s. refl; flushed = λ t s. refl }

-- A connection on which two frames arrive.
abbrev two_frames : TcpConnection lists
two_frames = record { stream = encodings (frame ∷ frame ∷ []); read_timeout = 1000 }

serve-handled_example :
    (c' : TcpConnection lists) × (serve lists 5 (λ left. db) (session, two_frames)
      ≡ serve lists 3 (λ left. db) (handled db session (frame ∷ frame ∷ []), c'))
    × (incoming lists streams c' ≡ [])
unfolding streams
serve-handled_example =
    serve-handled lists streams duplex db (frame ∷ frame ∷ []) session two_frames [] 3
      (frame-IsValid, (frame-IsValid, tt)) (sym (append-nil (encodings (frame ∷ frame ∷ []))))
