-- ===== src/Tests/Master.antt =====
-- A master's session on concrete channels.
use dnp3_rust_lib.Prelude.{
  ℕ, zero, suc, ◌<◌, ◌≤◌, ◌≡◌, ◌≢◌, refl, ap, false, List, [], ◌∷◌, map, length, arith,
}
use mathlib.Core.Path.{subst}
use dnp3_rust_lib.Prelude.Bytes.{IsBytes}
use dnp3_rust_lib.Core.Fallible.{ok, err, stuck, Action, err-ne-ok, ok-injective}
use dnp3_rust_lib.Core.Address
use dnp3_rust_lib.Link.ControlField.{outstation_to_master, primary, PrimaryFunction}
use dnp3_rust_lib.Link.LinkFrame.{LinkFrame}
use dnp3_rust_lib.Transport.Segment.{fragment}
use dnp3_rust_lib.App.ApplicationFragment.RoundTrip.{decode-encode_fragment}
use dnp3_rust_lib.Outstation
use dnp3_rust_lib.Outstation.{OutstationSession}
use dnp3_rust_lib.Master.{
  MasterChannel, MasterError, transport, MasterSession, default_config, new, integrity_poll,
  await_response, send_application,
}
use dnp3_rust_lib.Master.Loopback.{loopback}
use dnp3_rust_lib.Master.Requests.{snapshot}
use dnp3_rust_lib.Master.Sends.{
  Accepts, over, accepted, request_of, sent_session, send_application-Accepts,
}
use dnp3_rust_lib.Master.Answer.{polled}
use dnp3_rust_lib.Master.Poll.{Ready, poll-answers}
use dnp3_rust_lib.Master.Invariant.{IsValid, new-IsValid, GivesBytes, integrity_poll-IsValid}
use dnp3_rust_lib.Master.Terminates.{Drains, await_response-ne-stuck}
use dnp3_rust_lib.Tests.Outstation.{db, db-Fits, session}
use dnp3_rust_lib.Tests.App.{response, response-IsValid}

abbrev master : MasterSession
master = new default_config

ready : Ready master session
unfolding new Outstation.new
ready = record {
  mine = refl;
  transport = omega arith;
  application = omega arith;
  remote = omega arith;
}

poll-answers_example :
    (rounds : ℕ) × (count : ℕ) × (s' : OutstationSession) × ((fuel : ℕ)
      → rounds ≤ fuel
      → integrity_poll (loopback db) fuel (master, record { session = session; queue = [] })
        ≡ (ok (snapshot db 0), (polled master count, record { session = s'; queue = [] })))
    × Ready (polled master count) s'
unfolding new
poll-answers_example = poll-answers db master session ready db-Fits

abbrev answer : LinkFrame
answer = record {
  control = record {
    direction = outstation_to_master;
    fcb = false;
    fcv = false;
    function = primary PrimaryFunction.unconfirmed_user_data;
  };
  destination = Address.new 1;
  source = Address.new 1024;
  payload = 0xc0 ∷ 0xc3 ∷ 0x81 ∷ 0 ∷ 0 ∷ [];
}

answer-IsBytes : IsBytes answer.payload
answer-IsBytes = (omega arith, (omega arith, (omega arith, (omega arith, (omega arith, tt)))))

-- A channel that gives the same frame a number of times, and takes whatever is sent.
abbrev give : Action ℕ MasterError LinkFrame
give zero = (err (transport "empty"), zero)
give (suc n) = (ok answer, n)

abbrev repeats : MasterChannel
repeats = record { State = ℕ; send_frame = λ frame n. (ok tt, n); receive_frame = give }

gives : GivesBytes repeats
gives zero c' frame e = absurd (err-ne-ok (ap (λ p. p.0) e))
gives (suc n) c' frame e =
    subst (λ (f : LinkFrame). IsBytes f.payload) (ok-injective (ap (λ p. p.0) e)) answer-IsBytes

falls : (c c' : ℕ) (frame : LinkFrame) → give c ≡ (ok frame, c') → c' < c
falls zero c' frame e = absurd (err-ne-ok (ap (λ p. p.0) e))
falls (suc n) c' frame e = omega (arith, ap (λ p. p.1) e)

settles : (c : ℕ) → (give c).0 ≢ stuck
settles zero h = cc
settles (suc n) h = cc

drains : Drains repeats
drains = record { left = λ n. n; falls = falls; settles = settles }

integrity_poll-IsValid_example : IsValid (integrity_poll repeats 10 (master, 3)).1.0
integrity_poll-IsValid_example =
    integrity_poll-IsValid repeats gives 10 master 3 (new-IsValid default_config)

await_response-ne-stuck_example : (await_response repeats 4 (master, 3)).0 ≢ stuck
unfolding drains
await_response-ne-stuck_example = await_response-ne-stuck repeats drains 4 master 3 (omega arith)

-- The bytes of a fragment that is sent.
abbrev encoded : List ℕ
encoded = (decode-encode_fragment response response-IsValid).0

takes : (frames : List LinkFrame) → Accepts repeats 3 frames 3
takes [] = over
takes (frame ∷ frames) = accepted refl (takes frames)

send_application-Accepts_example :
    send_application repeats response (master, 3)
    ≡ (ok tt, (sent_session master (length (fragment encoded 0)), 3))
unfolding new
send_application-Accepts_example =
    send_application-Accepts repeats master response encoded 3 3 (omega arith)
      (decode-encode_fragment response response-IsValid).1
      (takes (map (request_of master.config) (fragment encoded master.transport_sequence)))
