-- ===== src/Transport/Segment.antt =====
-- `TransportHeader`, `TransportSegment` and `fragment` of crates/dnp3-transport/src/lib.rs.
pub mod Codes
pub mod Shape
use dnp3_rust_lib.Prelude.{
  ℕ, ◌+◌, ◌-◌, ◌%◌, Bool, true, false, bit_and, bit_or, List, [], ◌∷◌, ◌++◌, length, drop, get_or,
  ltb, ◌==◌, ◌!=◌, if◌then◌else◌,
}
use dnp3_rust_lib.Prelude.Chunks.{chunks}
use dnp3_rust_lib.Core.Error.{Result, ok, err, unexpected_eof, invalid_length}

-- `MAX_TRANSPORT_PAYLOAD`
abbrev pub max_transport_payload : ℕ
max_transport_payload = 249

pub record TransportHeader : Type 0 where
  pub fir : Bool
  pub fin : Bool
  pub sequence : ℕ

-- `TransportHeader::new`
unfoldable pub new_header : Bool → Bool → ℕ → TransportHeader
new_header fir fin sequence = record { fir = fir; fin = fin; sequence = bit_and sequence 0x3f }

-- `TransportHeader::encode`
unfoldable pub encode_header : TransportHeader → ℕ
encode_header h =
    bit_or (bit_or (if h.fir then 0x80 else 0) (if h.fin then 0x40 else 0))
      (bit_and h.sequence 0x3f)

-- `TransportHeader::decode`
unfoldable pub decode_header : ℕ → TransportHeader
decode_header value = record {
  fir = bit_and value 0x80 != 0;
  fin = bit_and value 0x40 != 0;
  sequence = bit_and value 0x3f;
}

pub record TransportSegment : Type 0 where
  pub header : TransportHeader
  pub payload : List ℕ

unfoldable pub encode : TransportSegment → List ℕ
unfolding encode_header
encode segment = encode_header segment.header ∷ segment.payload

unfoldable pub decode : List ℕ → Result TransportSegment
unfolding decode_header
decode input =
    if length input == 0
    then err unexpected_eof
    else if ltb (max_transport_payload + 1) (length input)
    then err (invalid_length (max_transport_payload + 1) (length input))
    else ok (record { header = decode_header (get_or input 0 0); payload = drop 1 input })

-- The `map` over the enumerated chunks: `count` is `chunks.len()`, `index` the chunk's number.
-- `index as u8` and `wrapping_add` are taken mod 256.
unfoldable pub segments_from : ℕ → ℕ → ℕ → List (List ℕ) → List TransportSegment
unfolding new_header
segments_from count start_sequence index [] = []
segments_from count start_sequence index (chunk ∷ rest) =
    record {
      header = new_header (index == 0) (index + 1 == count) ((start_sequence + index % 256) % 256);
      payload = chunk;
    }
    ∷ segments_from count start_sequence (index + 1) rest

unfoldable pub fragment : List ℕ → ℕ → List TransportSegment
unfolding segments_from
fragment application start_sequence =
    if length application == 0
    then record { header = new_header true true start_sequence; payload = [] } ∷ []
    else (let pieces = chunks max_transport_payload application in
        segments_from (length pieces) start_sequence 0 pieces)
