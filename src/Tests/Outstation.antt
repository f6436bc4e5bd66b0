-- ===== src/Tests/Outstation.antt =====
-- An outstation session on concrete frames.
use dnp3_rust_lib.Prelude.{
  ℕ, ◌-◌, ◌≡◌, refl, sym, ap, ◌∙◌, true, false, All, length, List, [], ◌∷◌, ◌++◌, arith,
}
use dnp3_rust_lib.Prelude.Chunks.{chunks}
use dnp3_rust_lib.Prelude.Bytes.{IsBytes}
use dnp3_rust_lib.Core.Error.{ok}
use dnp3_rust_lib.Core.Address
use dnp3_rust_lib.Core.Reader
use dnp3_rust_lib.Core.Reader.{read_u8, skip_padding_zeros}
use dnp3_rust_lib.App.AppControl
use dnp3_rust_lib.App.FunctionCode
use dnp3_rust_lib.App.ObjectHeader
use dnp3_rust_lib.App.AppObject
use dnp3_rust_lib.App.Points.{contiguous_u16_range, is_run}
use dnp3_rust_lib.Transport.Segment
use dnp3_rust_lib.Link.ControlField.{
  outstation_to_master, master_to_outstation, primary, PrimaryFunction,
}
use dnp3_rust_lib.Link.LinkFrame
use dnp3_rust_lib.Link.LinkFrame.{LinkFrame}
use dnp3_rust_lib.Transport.Segment.{TransportSegment, fragment}
use dnp3_rust_lib.Transport.Reassembler
use dnp3_rust_lib.Transport.Reassembler.{Reassembler, push_all}
use dnp3_rust_lib.Transport.Reassembler.Delivers.{waits_then}
use dnp3_rust_lib.App.ApplicationFragment
use dnp3_rust_lib.App.AppObject.{binary_inputs, integrity_poll}
use dnp3_rust_lib.App.ApplicationFragment.{ApplicationFragment}
use dnp3_rust_lib.App.ApplicationFragment.RoundTrip as FragmentRoundTrip
use dnp3_rust_lib.Outstation.{
  handle_application, Database, OutstationSession, new, encode_response, handle_frame,
}
use dnp3_rust_lib.Outstation.Application.{Fits, handle_application-IsValid}
use dnp3_rust_lib.Outstation.Invariant.{IsValid, new-IsValid, handle_frame-IsValid}
use dnp3_rust_lib.Core.Fallible.{Fallible, Action, stuck-ne-ok}
use dnp3_rust_lib.Outstation.Channel.{
  OutstationError, transport, OutstationChannel, World, run_once,
}
use dnp3_rust_lib.Outstation.Runs.{
  Quiet, over, unanswered, sent, all_sent, Ends, answered, run_once-Ends, run_once-of_Ends,
}
use dnp3_rust_lib.Outstation.Delivers.{IsAnswer, received, encode_response-delivers}
use dnp3_rust_lib.Outstation.Responses.{IsReadable, handle_frame-IsReadable}
use dnp3_rust_lib.Tests.App.{response, response-IsValid}

abbrev pub db : Database
db = record {
  binary_inputs = record { index = 0; flags = 1 } ∷ [];
  binary_outputs = [];
  analog_inputs = [];
  analog_outputs = [];
  counters = [];
}

abbrev pub session : OutstationSession
session = new (Address.new 1024)

session-IsValid : IsValid session
session-IsValid = new-IsValid (Address.new 1024)

encode_response-delivers_example :
    (frames : List LinkFrame) × (bytes : List ℕ) × (segments : List TransportSegment)
    × ((encode_response session (Address.new 1) response false).0 ≡ ok frames)
    × All (IsAnswer session.outstation (Address.new 1)) frames
    × (received frames ≡ ok segments)
    × ((r : Reassembler)
        → push_all segments r ≡ (waits_then (length (chunks 249 bytes) - 1) bytes, Reassembler.new))
    × (ApplicationFragment.decode bytes ≡ ok response)
unfolding new
encode_response-delivers_example =
    encode_response-delivers session (Address.new 1) response false (omega arith) response-IsValid

-- A read request for everything, in one confirmed frame.
abbrev request_frame : LinkFrame
request_frame = record {
  control = record {
    direction = master_to_outstation;
    fcb = true;
    fcv = true;
    function = primary PrimaryFunction.confirmed_user_data;
  };
  destination = Address.new 1024;
  source = Address.new 1;
  payload = 0xc0 ∷ 0xc3 ∷ 0x01 ∷ 0x3c ∷ 0x01 ∷ 0x06 ∷ [];
}

abbrev answers : List LinkFrame
answers =
    LinkFrame.ack_with_fcb (Address.new 1) (Address.new 1024) true
    ∷ record {
      control = record {
        direction = outstation_to_master;
        fcb = false;
        fcv = false;
        function = primary PrimaryFunction.unconfirmed_user_data;
      };
      destination = Address.new 1;
      source = Address.new 1024;
      payload = 0xc0 ∷ 0xc3 ∷ 0x81 ∷ 0 ∷ 0 ∷ 0x01 ∷ 0x02 ∷ 0x01 ∷ 0 ∷ 0 ∷ 0 ∷ 0 ∷ 0x01 ∷ [];
    }
    ∷ []

request_answered : (handle_frame session db request_frame).0 ≡ ok answers
unfolding handle_frame new Segment.decode Segment.encode Reassembler.push ApplicationFragment.decode
    read_u8 Reader.new FunctionCode.decode skip_padding_zeros ObjectHeader.decode AppObject.decode
    ApplicationFragment.encode ApplicationFragment.new AppObject.encode contiguous_u16_range
    fragment ObjectHeader.encode chunks LinkFrame.outstation_unconfirmed_user_data LinkFrame.new
    AppControl.new AppControl.encode AppControl.decode FunctionCode.encode
request_answered = refl

handle_frame-IsReadable_example : All (IsReadable session.outstation (Address.new 1)) answers
unfolding new
handle_frame-IsReadable_example =
    handle_frame-IsReadable session db request_frame (omega arith) (omega arith) (omega arith)
      request_answered

request-IsBytes : IsBytes request_frame.payload
request-IsBytes =
    (omega arith, (omega arith, (omega arith, (omega arith, (omega arith, (omega arith, tt))))))

handle_frame-IsValid_example : IsValid (handle_frame session db request_frame).1
handle_frame-IsValid_example =
    handle_frame-IsValid session db request_frame request-IsBytes session-IsValid

-- A frame for another station, then the request.
abbrev other_frame : LinkFrame
other_frame = record request_frame { destination = Address.new 7 }

-- A channel that gives the frames of a list, then an error, and keeps the frames that it takes.
abbrev Queues : Type 0
Queues = List LinkFrame × List LinkFrame

abbrev receive : Action Queues OutstationError LinkFrame
receive ([], taken) = (Fallible.err (transport "queue is empty"), ([], taken))
receive (frame ∷ frames, taken) = (Fallible.ok frame, (frames, taken))

abbrev queues : OutstationChannel
queues = record {
  State = Queues;
  send_frame = λ frame (frames, taken). (Fallible.ok tt, (frames, taken ++ (frame ∷ [])));
  receive_frame = receive;
}

abbrev asked : World queues (λ _. db)
asked = (session, (other_frame ∷ request_frame ∷ [], []))

abbrev answered_session : OutstationSession
answered_session = (handle_frame session db request_frame).1

other_unanswered : handle_frame session db other_frame ≡ (ok [], session)
unfolding handle_frame new
other_unanswered = refl

quiet : Quiet queues (λ _. db) asked (other_frame ∷ []) (session, (request_frame ∷ [], []))
quiet = unanswered refl other_unanswered over

ends :
    Ends queues
      (λ _. db)
      (session, (request_frame ∷ [], []))
      (Fallible.ok tt)
      (answered_session, ([], answers))
ends = answered refl (λ i. (request_answered i, answered_session)) (sent refl (sent refl all_sent))

run_once-of_Ends_example :
    run_once queues (λ _. db) 2 asked ≡ (Fallible.ok tt, (answered_session, ([], answers)))
run_once-of_Ends_example = run_once-of_Ends queues (λ _. db) 2 quiet ends (omega arith)

request_served : (run_once queues (λ _. db) 2 asked).0 ≡ Fallible.ok tt
request_served = ap (λ p. p.0) (run_once-of_Ends queues (λ _. db) 2 quiet ends (omega arith))

run_once-Ends_example :
    (frames : List LinkFrame) × (w1 : World queues (λ _. db)) × Quiet queues
      (λ _. db)
      asked
      frames
      w1
    × Ends queues
        (λ _. db)
        w1
        (run_once queues (λ _. db) 2 asked).0
        (run_once queues (λ _. db) 2 asked).1
run_once-Ends_example =
    run_once-Ends queues (λ _. db) 2 session (other_frame ∷ request_frame ∷ [], [])
      λ e. stuck-ne-ok (sym e ∙ request_served)

abbrev read_request : ApplicationFragment
read_request = record {
  control = record { fir = true; fin = true; con = false; uns = false; sequence = 3 };
  function = FunctionCode.read;
  iin = 0;
  objects = integrity_poll ∷ [];
}

abbrev read_response : ApplicationFragment
read_response = record {
  control = record { fir = true; fin = true; con = false; uns = false; sequence = 3 };
  function = FunctionCode.response;
  iin = 0;
  objects = binary_inputs db.binary_inputs ∷ [];
}

read_answered : handle_application db read_request ≡ ok read_response
unfolding handle_application ApplicationFragment.new AppControl.new
read_answered = refl

pub db-Fits : Fits db
unfolding is_run
db-Fits = (((omega arith, tt), omega arith), ((tt, tt), ((tt, tt), ((tt, tt), (tt, tt)))))

handle_application-IsValid_example : FragmentRoundTrip.IsValid read_response
handle_application-IsValid_example =
    handle_application-IsValid db read_request db-Fits (omega arith) read_answered
