-- ===== src/Transport/Reassembler.antt =====
-- `Reassembler` of crates/dnp3-transport/src/lib.rs. `push` returns its result with the new state.
pub mod Delivers
pub mod Sound
use dnp3_rust_lib.Prelude.{
  ℕ, ◌+◌, ◌%◌, Bool, bit_and, Option, none, some, List, [], ◌∷◌, ◌++◌, ◌!=◌, if◌then◌else◌,
}
use dnp3_rust_lib.Core.Error.{Result, ok, err, invalid_fragment, invalid_sequence}
use dnp3_rust_lib.Transport.Segment.{TransportSegment}

pub record Reassembler : Type 0 where
  pub expected_sequence : Option ℕ
  pub buffer : List ℕ

-- `Reassembler::new`
unfoldable pub new : Reassembler
new = record { expected_sequence = none; buffer = [] }

-- `reset` overwrites both fields.
unfoldable pub reset : Reassembler → Reassembler
reset r = record { expected_sequence = none; buffer = [] }

abbrev pub Pushed : Type 0
Pushed = Result (Option (List ℕ)) × Reassembler

-- `push` from the comparison of the sequence numbers on. The sum is a u8.
unfoldable pub push_expected : TransportSegment → Reassembler → ℕ → Pushed
unfolding reset
push_expected segment r expected =
    if segment.header.sequence != expected
    then (err (invalid_sequence expected segment.header.sequence), reset r)
    else (let complete = r.buffer ++ segment.payload in
        let next = bit_and ((expected + 1) % 256) 0x3f in
        if segment.header.fin
        then (ok (some complete), record { expected_sequence = none; buffer = [] })
        else (ok none, record { expected_sequence = some next; buffer = complete }))

-- The `ok_or` on the expected sequence number.
unfoldable pub push_open : TransportSegment → Reassembler → Pushed
unfolding push_expected
push_open segment r = elim r.expected_sequence [
  | none ↦ (err invalid_fragment, r)
  | some expected ↦ push_expected segment r expected
]

unfoldable pub push : TransportSegment → Reassembler → Pushed
unfolding push_open
push segment r =
    if segment.header.fir
    then push_open segment
        (record { expected_sequence = some segment.header.sequence; buffer = [] })
    else push_open segment r

-- A caller's loop: the results of the pushes in turn, and the last state.
unfoldable pub push_all :
    List TransportSegment → Reassembler → List (Result (Option (List ℕ))) × Reassembler
unfolding push
push_all [] r = ([], r)
push_all (segment ∷ rest) r =
    let (result, r') = push segment r in
    let (results, r'') = push_all rest r' in (result ∷ results, r'')
