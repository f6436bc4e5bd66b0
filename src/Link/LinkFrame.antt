-- ===== src/Link/LinkFrame.antt =====
-- `LinkFrame` and `encoded_payload_len` of crates/dnp3-link/src/lib.rs.
pub mod Lengths
pub mod RoundTrip
pub mod Canonical
use dnp3_rust_lib.Prelude.{
  ℕ, ◌+◌, ◌-◌, ◌*◌, ◌/◌, ◌%◌, Bool, true, false, not, ◌&&◌, List, [], ◌∷◌, ◌++◌, length, take, drop,
  get_or, ltb, leb, ◌==◌, ◌!=◌, if◌then◌else◌,
}
use dnp3_rust_lib.Prelude.Bytes.{bytes_eq}
use dnp3_rust_lib.Core.Error.{
  Result, ok, err, stuck, ◌>>=◌, ◌>>◌, guard, unexpected_eof, invalid_start_bytes, invalid_length,
}
use dnp3_rust_lib.Core.Reader
use dnp3_rust_lib.Core.Reader.{Reader, Parser, read_u8, lift, pure}
use dnp3_rust_lib.Core.Crc.{
  crc_block_size, append_crc, verify_crc, encode_crc_blocks, decode_crc_blocks,
}
use dnp3_rust_lib.Core.Address
use dnp3_rust_lib.Core.Address.{Address}
use dnp3_rust_lib.Link.ControlField
use dnp3_rust_lib.Link.ControlField.{
  Direction, master_to_outstation, outstation_to_master, PrimaryFunction, SecondaryFunction,
  LinkFunction, ControlField, primary_control, secondary_control,
}

-- `START_BYTES`
abbrev pub start_bytes : List ℕ
start_bytes = 0x05 ∷ 0x64 ∷ []

-- `MIN_LENGTH_FIELD`
abbrev pub min_length_field : ℕ
min_length_field = 5

-- `MAX_LENGTH_FIELD`
abbrev pub max_length_field : ℕ
max_length_field = 255

pub record LinkFrame : Type 0 where
  pub control : ControlField
  pub destination : Address
  pub source : Address
  pub payload : List ℕ

-- `LinkFrame::new`
unfoldable pub new : ControlField → Address → Address → List ℕ → Result LinkFrame
new control destination source payload =
    if ltb max_length_field (length payload + min_length_field)
    then err (invalid_length (max_length_field - min_length_field) (length payload))
    else ok (record {
      control = control;
      destination = destination;
      source = source;
      payload = payload;
    })

unfoldable pub ack_with_fcb : Address → Address → Bool → LinkFrame
ack_with_fcb destination source fcb = record {
  control = record {
    direction = outstation_to_master;
    fcb = fcb;
    fcv = false;
    function = LinkFunction.secondary SecondaryFunction.ack;
  };
  destination = destination;
  source = source;
  payload = [];
}

unfoldable pub legacy_ack_with_fcb : Address → Address → Bool → LinkFrame
legacy_ack_with_fcb destination source fcb = record {
  control = record {
    direction = master_to_outstation;
    fcb = fcb;
    fcv = false;
    function = LinkFunction.secondary SecondaryFunction.ack;
  };
  destination = destination;
  source = source;
  payload = [];
}

unfoldable pub ack : Address → Address → LinkFrame
unfolding ack_with_fcb
ack destination source = ack_with_fcb destination source false

unfoldable pub legacy_ack : Address → Address → LinkFrame
unfolding legacy_ack_with_fcb
legacy_ack destination source = legacy_ack_with_fcb destination source false

unfoldable pub link_status : Address → Address → LinkFrame
unfolding secondary_control
link_status destination source = record {
  control = secondary_control outstation_to_master SecondaryFunction.link_status;
  destination = destination;
  source = source;
  payload = 0xff ∷ [];
}

unfoldable pub reset_link_states : Address → Address → LinkFrame
unfolding primary_control
reset_link_states destination source = record {
  control = primary_control master_to_outstation PrimaryFunction.reset_link_states false false;
  destination = destination;
  source = source;
  payload = [];
}

unfoldable pub tool_reset_link_states : Address → Address → LinkFrame
unfolding primary_control
tool_reset_link_states destination source = record {
  control = primary_control outstation_to_master PrimaryFunction.reset_link_states false false;
  destination = destination;
  source = source;
  payload = [];
}

unfoldable pub test_link_states : Address → Address → Bool → LinkFrame
unfolding primary_control
test_link_states destination source fcb = record {
  control = primary_control master_to_outstation PrimaryFunction.test_link_states fcb true;
  destination = destination;
  source = source;
  payload = [];
}

unfoldable pub tool_test_link_states : Address → Address → Bool → LinkFrame
unfolding primary_control
tool_test_link_states destination source fcb = record {
  control = primary_control outstation_to_master PrimaryFunction.test_link_states fcb true;
  destination = destination;
  source = source;
  payload = [];
}

unfoldable pub unconfirmed_user_data : Address → Address → List ℕ → Result LinkFrame
unfolding primary_control new
unconfirmed_user_data destination source payload =
    new (primary_control master_to_outstation PrimaryFunction.unconfirmed_user_data false false)
      destination source payload

unfoldable pub tool_unconfirmed_user_data : Address → Address → List ℕ → Result LinkFrame
unfolding primary_control new
tool_unconfirmed_user_data destination source payload =
    new (primary_control outstation_to_master PrimaryFunction.unconfirmed_user_data false false)
      destination source payload

unfoldable pub outstation_unconfirmed_user_data : Address → Address → List ℕ → Result LinkFrame
unfolding primary_control new
outstation_unconfirmed_user_data destination source payload =
    new (primary_control outstation_to_master PrimaryFunction.unconfirmed_user_data false false)
      destination source payload

-- The eight bytes before the header's CRC; the length field is cut to a byte.
unfoldable pub encode_header : LinkFrame → List ℕ
encode_header frame =
    let length' = (min_length_field + length frame.payload) % 256 in
    let header = start_bytes ++ length' ∷ ControlField.encode frame.control ∷ [] in
    Address.encode frame.source (Address.encode frame.destination header)

unfoldable pub encode : LinkFrame → List ℕ
unfolding encode_header
encode frame =
    let header = encode_header frame in encode_crc_blocks frame.payload (append_crc header header)

-- `payload_len.div_ceil(CRC_BLOCK_SIZE)` is the quotient rounded up.
unfoldable pub encoded_payload_len : ℕ → ℕ
encoded_payload_len payload_len =
    if payload_len == 0
    then 0
    else payload_len + (payload_len + (crc_block_size - 1)) / crc_block_size * 2

-- The reads of `decode` from the five bytes behind the length field.
unfoldable pub decode_fields : Parser (ControlField × Address × Address)
decode_fields = Reader.◌>>=◌ read_u8 λ value.
    Reader.◌>>=◌ (lift (ControlField.decode value)) λ control.
      Reader.◌>>=◌ Address.decode
        λ destination. Reader.◌>>=◌ Address.decode λ source. pure (control, destination, source)

unfoldable pub decode : List ℕ → Result LinkFrame
unfolding encoded_payload_len decode_fields
decode input = do
  guard (not (ltb (length input) 10)) unexpected_eof
  guard (bytes_eq (take 2 input) start_bytes) invalid_start_bytes
  let length' = get_or input 2 0
  guard (leb min_length_field length' && leb length' max_length_field)
      (invalid_length min_length_field length')
  verify_crc (take 8 input) (take 2 (drop 8 input))
  let payload_len = length' - min_length_field
  let expected_len = 10 + encoded_payload_len payload_len
  guard (length input == expected_len) (invalid_length expected_len (length input))
  ((control, destination, source), _) ← decode_fields (Reader.new (take 5 (drop 3 input)))
  payload ← decode_crc_blocks (drop 10 input) payload_len
  ok (record { control = control; destination = destination; source = source; payload = payload })
