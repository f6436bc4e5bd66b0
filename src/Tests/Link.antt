-- ===== src/Tests/Link.antt =====
-- Checksums and link frames on concrete bytes, some from the tests of crates/dnp3-core and
-- crates/dnp3-link.
use dnp3_rust_lib.Prelude.{ℕ, ◌≡◌, ◌≢◌, refl, true, false, List, [], ◌∷◌, length, arith}
use dnp3_rust_lib.Prelude.Bytes.{IsBytes}
use dnp3_rust_lib.Core.Error.{ok, stuck}
use dnp3_rust_lib.Core.Address
use dnp3_rust_lib.Core.Reader
use dnp3_rust_lib.Core.Reader.{read_u8}
use dnp3_rust_lib.Core.Crc.{crc16, verify_crc, encode_crc_blocks, decode_crc_blocks}
use dnp3_rust_lib.Core.Crc.Accepts.{decode_crc_blocks-encode_crc_blocks}
use dnp3_rust_lib.Core.Crc.Exact.{decode_crc_blocks-eq-ok, decode_crc_blocks-ne-stuck}
use dnp3_rust_lib.Link.ControlField
use dnp3_rust_lib.Link.ControlField.{
  ControlField, outstation_to_master, master_to_outstation, primary, secondary, PrimaryFunction,
  SecondaryFunction,
}
use dnp3_rust_lib.Link.ControlField.Codes.{decode-encode_control, encode-decode_control}
use dnp3_rust_lib.Link.LinkFrame
use dnp3_rust_lib.Link.LinkFrame.{LinkFrame}
use dnp3_rust_lib.Link.LinkFrame.RoundTrip.{IsValid, decode-encode_frame}
use dnp3_rust_lib.Link.LinkFrame.Canonical.{encode-decode_frame}

crc16_known_vector : crc16 (0x05 ∷ 0x64 ∷ 0x05 ∷ 0xc0 ∷ 0x01 ∷ 0x00 ∷ 0x00 ∷ 0x04 ∷ []) ≡ 0x21e9
unfolding crc16
crc16_known_vector = refl

abbrev eighteen : List ℕ
eighteen = 1 ∷ 2 ∷ 3 ∷ 4 ∷ 5 ∷ 6 ∷ 7 ∷ 8 ∷ 9 ∷ 10 ∷ 11 ∷ 12 ∷ 13 ∷ 14 ∷ 15 ∷ 16 ∷ 17 ∷ 18 ∷ []

decode_crc_blocks-encode_crc_blocks_example :
    decode_crc_blocks (encode_crc_blocks eighteen []) 18 ≡ ok eighteen
decode_crc_blocks-encode_crc_blocks_example = decode_crc_blocks-encode_crc_blocks eighteen

abbrev two : List ℕ
two = 1 ∷ 2 ∷ []

abbrev two_encoded : List ℕ
two_encoded = 1 ∷ 2 ∷ 0x0d ∷ 0x38 ∷ []

two_encoded-IsBytes : IsBytes two_encoded
two_encoded-IsBytes = (omega arith, (omega arith, (omega arith, (omega arith, tt))))

two_decoded : decode_crc_blocks two_encoded 2 ≡ ok two
unfolding decode_crc_blocks
two_decoded = refl

decode_crc_blocks-eq-ok_example : (two_encoded ≡ encode_crc_blocks two []) × (length two ≡ 2)
decode_crc_blocks-eq-ok_example =
    decode_crc_blocks-eq-ok two_encoded two 2 two_encoded-IsBytes two_decoded

decode_crc_blocks-ne-stuck_example : decode_crc_blocks two_encoded 200 ≢ stuck
decode_crc_blocks-ne-stuck_example = decode_crc_blocks-ne-stuck two_encoded 200 two_encoded-IsBytes

abbrev data_control : ControlField
data_control = record {
  direction = master_to_outstation;
  fcb = true;
  fcv = true;
  function = primary PrimaryFunction.confirmed_user_data;
}

decode-encode_control_example :
    ControlField.decode (ControlField.encode data_control) ≡ ok data_control
decode-encode_control_example = decode-encode_control data_control

abbrev ack_control : ControlField
ack_control = record {
  direction = outstation_to_master;
  fcb = true;
  fcv = false;
  function = secondary SecondaryFunction.ack;
}

ack_decoded : ControlField.decode 0xa0 ≡ ok ack_control
unfolding ControlField.decode
ack_decoded = refl

encode-decode_control_example : ControlField.encode ack_control ≡ 0xa0
encode-decode_control_example = encode-decode_control 0xa0 ack_control (omega arith) ack_decoded

abbrev data_frame : LinkFrame
data_frame = record {
  control = data_control;
  destination = Address.new 1024;
  source = Address.new 1;
  payload = eighteen;
}

data_frame-IsValid : IsValid data_frame
data_frame-IsValid = record {
  destination = omega arith;
  source = omega arith;
  payload = omega arith;
}

decode-encode_frame_example : LinkFrame.decode (LinkFrame.encode data_frame) ≡ ok data_frame
decode-encode_frame_example = decode-encode_frame data_frame data_frame-IsValid

-- The capture of `tool_reset_link_states_matches_freyr_client_capture`.
abbrev pub capture : List ℕ
capture = 0x05 ∷ 0x64 ∷ 0x05 ∷ 0xc0 ∷ 0x0a ∷ 0x00 ∷ 0x01 ∷ 0x00 ∷ 0xb1 ∷ 0xac ∷ []

pub capture-IsBytes : IsBytes capture
capture-IsBytes = (
  omega arith,
  (
    omega arith,
    (
      omega arith,
      (
        omega arith,
        (
          omega arith,
          (omega arith, (omega arith, (omega arith, (omega arith, (omega arith, tt))))),
        ),
      ),
    ),
  ),
)

abbrev pub reset_frame : LinkFrame
reset_frame = record {
  control = record {
    direction = outstation_to_master;
    fcb = false;
    fcv = false;
    function = primary PrimaryFunction.reset_link_states;
  };
  destination = Address.new 10;
  source = Address.new 1;
  payload = [];
}

capture_is_reset : LinkFrame.tool_reset_link_states (Address.new 10) (Address.new 1) ≡ reset_frame
unfolding LinkFrame.tool_reset_link_states
capture_is_reset = refl

capture_decoded : LinkFrame.decode capture ≡ ok reset_frame
unfolding LinkFrame.decode verify_crc read_u8 Reader.new ControlField.decode Address.decode
    decode_crc_blocks
capture_decoded = refl

encode-decode_frame_example : (LinkFrame.encode reset_frame ≡ capture) × IsValid reset_frame
encode-decode_frame_example =
    encode-decode_frame capture reset_frame capture-IsBytes capture_decoded
