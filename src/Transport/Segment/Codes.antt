-- ===== src/Transport/Segment/Codes.antt =====
-- Headers and segments as bytes, and back.
use dnp3_rust_lib.Prelude.{
  ℕ, suc, ◌+◌, ◌*◌, ◌%◌, ◌≤◌, ◌<◌, ◌≡◌, length, arith, if◌then◌else◌, le→ltb, ne→==,
}
use dnp3_rust_lib.Prelude.Bytes.{IsByte}
use dnp3_rust_lib.Prelude.Masks.{and_80, and_40, and_3f, or_six}
use dnp3_rust_lib.Core.Error.{ok}
use dnp3_rust_lib.Transport.Segment.{
  TransportHeader, encode_header, decode_header, TransportSegment, encode, decode,
}

-- The two flags as a number below 4.
abbrev flags : TransportHeader → ℕ
flags h = (if h.fir then 2 else 0) + (if h.fin then 1 else 0)

pub encode_header_lem :
    (h : TransportHeader) → IsByte h.sequence → encode_header h ≡ flags h * 64 + h.sequence % 64
unfolding encode_header
encode_header_lem h v = ground (
  arith,
  and_3f h.sequence,
  or_six 0 (h.sequence % 64),
  or_six 1 (h.sequence % 64),
  or_six 2 (h.sequence % 64),
  or_six 3 (h.sequence % 64),
)

-- A header with a six-bit sequence number is read back from its byte.
pub decode_header-encode_header :
    (h : TransportHeader) → h.sequence < 64 → decode_header (encode_header h) ≡ h
unfolding decode_header
decode_header-encode_header h v = rw (encode_header_lem h (omega arith)) (
    ground (
      arith,
      and_80 (flags h * 64 + h.sequence % 64),
      and_40 (flags h * 64 + h.sequence % 64),
      and_3f (flags h * 64 + h.sequence % 64),
    ))

-- Every byte is the encoding of the header that it is read as.
pub encode_header-decode_header : (b : ℕ) → IsByte b → encode_header (decode_header b) ≡ b
unfolding encode_header decode_header
encode_header-decode_header b h = ground (
  arith,
  and_80 b,
  and_40 b,
  and_3f b,
  and_3f (b % 64),
  or_six 0 (b % 64),
  or_six 1 (b % 64),
  or_six 2 (b % 64),
  or_six 3 (b % 64),
)

-- A segment with a six-bit sequence number and at most 249 bytes is decoded from its bytes.
pub decode-encode_segment :
    (s : TransportSegment)
    → s.header.sequence < 64
    → length s.payload ≤ 249
    → decode (encode s) ≡ ok s
unfolding decode encode
decode-encode_segment s hs hp = rw (
  ne→== (suc (length s.payload)) 0 (omega arith),
  le→ltb 250 (suc (length s.payload)) (omega arith),
  decode_header-encode_header s.header hs,
)
