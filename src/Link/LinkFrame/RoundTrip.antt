-- ===== src/Link/LinkFrame/RoundTrip.antt =====
-- A frame that was encoded is decoded.
use dnp3_rust_lib.Prelude.{
  ℕ, ◌+◌, ◌-◌, ◌≤◌, ◌≡◌, refl, ap, ◌∙◌, List, [], ◌∷◌, ◌++◌, append_assoc, length, take, drop,
  get_or, ==_refl, le→leb, le→ltb, arith,
}
use dnp3_rust_lib.Prelude.Bytes.{to_le_bytes}
use dnp3_rust_lib.Core.Error.{ok}
use dnp3_rust_lib.Core.Reader
use dnp3_rust_lib.Core.Reader.{Reader, read_u8, lift, pure}
use dnp3_rust_lib.Core.Reader.Reading.{
  Reads, Parses-lift_ok, Parses, Parses-bind, Parses-map, Parses-read_u8,
}
use dnp3_rust_lib.Core.Crc.{append_crc, verify_crc, encode_crc_blocks, decode_crc_blocks}
use dnp3_rust_lib.Core.Crc.Blocks.{crc_bytes, verify_crc_own, encode_crc_blocks-append}
use dnp3_rust_lib.Core.Crc.Accepts.{decode_crc_blocks-encode_crc_blocks}
use dnp3_rust_lib.Core.Address
use dnp3_rust_lib.Core.Address.{Address}
use dnp3_rust_lib.Link.ControlField
use dnp3_rust_lib.Link.ControlField.{ControlField}
use dnp3_rust_lib.Link.ControlField.Codes
use dnp3_rust_lib.Link.LinkFrame.{
  LinkFrame, start_bytes, encode, encode_header, decode, decode_fields, encoded_payload_len,
}
use dnp3_rust_lib.Link.LinkFrame.Lengths.{length-encode_crc_blocks}

-- The addresses are u16s, and the payload fits the length field: what `LinkFrame::new` lets through.
pub record IsValid (frame : LinkFrame) : Type 0 where
  pub destination : Address.IsValid frame.destination
  pub source : Address.IsValid frame.source
  pub payload : length frame.payload ≤ 250

-- The five bytes behind the length field.
abbrev pub field_bytes : LinkFrame → List ℕ
field_bytes frame =
    ControlField.encode frame.control
    ∷ (to_le_bytes 2 frame.destination.value ++ to_le_bytes 2 frame.source.value)

Parses-fields :
    (frame : LinkFrame)
    → IsValid frame
    → Parses decode_fields (field_bytes frame) (frame.control, frame.destination, frame.source)
unfolding decode_fields
Parses-fields frame v =
    Parses-bind read_u8 _ (value ∷ []) (dest ++ src) value _ (Parses-read_u8 value) (
      Parses-bind (lift (ControlField.decode value)) _ [] (dest ++ src) frame.control _
        (Parses-lift_ok (Codes.decode-encode_control frame.control))
        (Parses-bind Address.decode _ dest src frame.destination _
          (Address.Parses-decode frame.destination v.destination)
          (Parses-map Address.decode _ src frame.source
            (Address.Parses-decode frame.source v.source))))
  where
    value : ℕ
    value = ControlField.encode frame.control

    dest : List ℕ
    dest = to_le_bytes 2 frame.destination.value

    src : List ℕ
    src = to_le_bytes 2 frame.source.value

pub encode_lem :
    (frame : LinkFrame)
    → encode frame
      ≡ encode_header frame
        ++ (crc_bytes (encode_header frame) ++ encode_crc_blocks frame.payload [])
unfolding encode
encode_lem frame =
    encode_crc_blocks-append frame.payload (append_crc (encode_header frame) (encode_header frame))
    ∙ unfold append_crc in append_assoc (encode_header frame) (crc_bytes (encode_header frame)) _

-- What the guards of `decode` ask of an input, and what its parts return.
decode-of_parts :
    (input : List ℕ) (n : ℕ) (c : ControlField) (d s : Address) (r : Reader) (payload : List ℕ)
    → 10 ≤ length input
    → take 2 input ≡ start_bytes
    → get_or input 2 0 ≡ 5 + n
    → n ≤ 250
    → verify_crc (take 8 input) (take 2 (drop 8 input)) ≡ ok tt
    → length input ≡ 10 + encoded_payload_len n
    → decode_fields (Reader.new (take 5 (drop 3 input))) ≡ ok ((c, d, s), r)
    → decode_crc_blocks (drop 10 input) n ≡ ok payload
    → decode input ≡ ok (record { control = c; destination = d; source = s; payload = payload })
unfolding decode
decode-of_parts input n c d s r payload long start len small crc total fields blocks = rw (
  le→ltb _ _ long,
  start,
  len,
  le→leb 5 (5 + n) (omega arith),
  le→leb (5 + n) 255 (omega arith),
  crc,
  minus,
  total,
  ==_refl (10 + encoded_payload_len n),
  fields,
  blocks,
)
  where
    minus : 5 + n - 5 ≡ n
    minus = omega arith

-- A frame whose addresses are u16s and whose payload has at most 250 bytes is decoded from its
-- encoding.
pub decode-encode_frame : (frame : LinkFrame) → IsValid frame → decode (encode frame) ≡ ok frame
unfolding encode_header Address.encode Reader.new
decode-encode_frame frame v =
    ap decode (encode_lem frame)
    ∙ decode-of_parts (header ++ (crc_bytes header ++ blocks)) (length frame.payload) frame.control
        frame.destination frame.source fields.0 frame.payload (omega arith) refl (omega arith)
        v.payload (verify_crc_own header) total fields.1
        (decode_crc_blocks-encode_crc_blocks frame.payload)
  where
    header : List ℕ
    header = encode_header frame

    blocks : List ℕ
    blocks = encode_crc_blocks frame.payload []

    fields :
        Reads decode_fields
          (Reader.new (field_bytes frame))
          (frame.control, frame.destination, frame.source)
          []
    fields = Parses-fields frame v (Reader.new (field_bytes frame)) [] refl

    total :
        length (header ++ (crc_bytes header ++ blocks))
        ≡ 10 + encoded_payload_len (length frame.payload)
    total = omega (arith, length-encode_crc_blocks frame.payload)
