-- ===== src/Tests/Transport.antt =====
-- Transport segments on concrete bytes.
use dnp3_rust_lib.Prelude.{ℕ, ◌≡◌, refl, true, false, All, none, some, [], ◌∷◌, arith}
use dnp3_rust_lib.Prelude.Chunks.{chunks}
use dnp3_rust_lib.Core.Error.{ok, err, invalid_sequence}
use dnp3_rust_lib.Transport.Segment
use dnp3_rust_lib.Transport.Segment.{TransportSegment, fragment}
use dnp3_rust_lib.Transport.Segment.Codes.{decode-encode_segment, encode_header-decode_header}
use dnp3_rust_lib.Transport.Segment.Shape.{Fits, fragment-Fits}
use dnp3_rust_lib.Transport.Reassembler
use dnp3_rust_lib.Transport.Reassembler.{Reassembler, push, push_all}
use dnp3_rust_lib.Transport.Reassembler.Delivers.{push_all-fragment}
use dnp3_rust_lib.Transport.Reassembler.Sound.{
  Run, Reaches, start, pushed, Explained, push-Run, Reaches-Explained,
}

abbrev first_segment : TransportSegment
first_segment = record {
  header = record { fir = true; fin = false; sequence = 63 };
  payload = 1 ∷ [];
}

abbrev last_segment : TransportSegment
last_segment = record {
  header = record { fir = false; fin = true; sequence = 0 };
  payload = 2 ∷ [];
}

decode-encode_segment_example : Segment.decode (Segment.encode first_segment) ≡ ok first_segment
decode-encode_segment_example = decode-encode_segment first_segment (omega arith) (omega arith)

encode_header-decode_header_example : Segment.encode_header (Segment.decode_header 0xc5) ≡ 0xc5
encode_header-decode_header_example = encode_header-decode_header 0xc5 (omega arith)

fragment-Fits_example : All Fits (fragment (1 ∷ 2 ∷ 3 ∷ []) 63)
fragment-Fits_example = fragment-Fits (1 ∷ 2 ∷ 3 ∷ []) 63 (omega arith)

abbrev waiting_reassembler : Reassembler
waiting_reassembler = record { expected_sequence = some 7; buffer = 9 ∷ [] }

push_all-fragment_example :
    push_all (fragment (1 ∷ 2 ∷ 3 ∷ []) 63) waiting_reassembler
    ≡ (ok (some (1 ∷ 2 ∷ 3 ∷ [])) ∷ [], Reassembler.new)
unfolding chunks
push_all-fragment_example = push_all-fragment (1 ∷ 2 ∷ 3 ∷ []) 63 waiting_reassembler

first_pushed : Reaches (first_segment ∷ []) (push first_segment Reassembler.new).1
first_pushed = pushed first_segment start (omega arith)

last_completes :
    push last_segment (push first_segment Reassembler.new).1
    ≡ (ok (some (1 ∷ 2 ∷ [])), Reassembler.new)
unfolding push Reassembler.new
last_completes = refl

push-Run_example :
    (next : ℕ) × Run (last_segment ∷ first_segment ∷ []) next (1 ∷ 2 ∷ [])
    × (true ≡ true)
    × (Reassembler.new ≡ Reassembler.new)
push-Run_example = push-Run last_segment first_pushed (omega arith) last_completes

Reaches-Explained_example :
    Explained
      (first_segment ∷ [])
      (push first_segment Reassembler.new).1.expected_sequence
      (push first_segment Reassembler.new).1.buffer
Reaches-Explained_example = Reaches-Explained first_pushed

-- A first segment starts afresh; a later one with a wrong number empties the reassembler.
out_of_order :
    push first_segment waiting_reassembler
    ≡ (ok none, record { expected_sequence = some 0; buffer = 1 ∷ [] })
unfolding push
out_of_order = refl

wrong_sequence :
    push last_segment waiting_reassembler ≡ (err (invalid_sequence 7 0), Reassembler.new)
unfolding push Reassembler.new
wrong_sequence = refl
