-- ===== src/Core/Crc.antt =====
-- The CRC functions of crates/dnp3-core/src/lib.rs.
pub mod Blocks
pub mod Accepts
pub mod Exact
use dnp3_rust_lib.Prelude.{
  ℕ, zero, suc, ◌+◌, ◌-◌, ◌/◌, ◌<◌, min, bit_and, bit_xor, Bool, true, false, List, [], ◌∷◌, ◌++◌,
  length, take, drop, leb, ltb, ◌==◌, ◌!=◌, if◌then◌else◌,
}
use dnp3_rust_lib.Prelude.Bytes.{to_le_bytes, from_le_bytes}
use dnp3_rust_lib.Prelude.Chunks.{chunks}
use dnp3_rust_lib.Core.Error.{
  Result, ok, err, stuck, ◌>>=◌, ◌>>◌, guard, unexpected_eof, invalid_length, invalid_crc,
}

-- `CRC_BLOCK_SIZE`
abbrev pub crc_block_size : ℕ
crc_block_size = 16

-- One round of the inner `for`.
unfoldable pub crc_bit : ℕ → ℕ
crc_bit crc = if bit_and crc 1 != 0 then bit_xor (crc / 2) 0xa6bc else crc / 2

unfoldable pub crc_bits : ℕ → ℕ → ℕ
unfolding crc_bit
crc_bits zero crc = crc
crc_bits (suc n) crc = crc_bits n (crc_bit crc)

-- One round of the outer `for`.
unfoldable pub crc_byte : ℕ → ℕ → ℕ
unfolding crc_bits
crc_byte crc byte = crc_bits 8 (bit_xor crc byte)

unfoldable pub crc_register : ℕ → List ℕ → ℕ
unfolding crc_byte
crc_register crc [] = crc
crc_register crc (byte ∷ block) = crc_register (crc_byte crc byte) block

-- `!crc` on a u16 is 0xffff - crc.
unfoldable pub crc16 : List ℕ → ℕ
unfolding crc_register
crc16 block = 0xffff - crc_register 0 block

unfoldable pub append_crc : List ℕ → List ℕ → List ℕ
unfolding crc16
append_crc block out = out ++ to_le_bytes 2 (crc16 block)

unfoldable pub verify_crc : List ℕ → List ℕ → Result (Unit {0})
unfolding crc16
verify_crc block crc =
    if length crc != 2
    then err (invalid_length 2 (length crc))
    else if from_le_bytes crc == crc16 block
    then ok tt
    else err invalid_crc

-- The `for` of `encode_crc_blocks`.
unfoldable pub encode_chunks : List (List ℕ) → List ℕ → List ℕ
unfolding append_crc
encode_chunks [] out = out
encode_chunks (chunk ∷ rest) out = encode_chunks rest (append_crc chunk (out ++ chunk))

unfoldable pub encode_crc_blocks : List ℕ → List ℕ → List ℕ
unfolding encode_chunks chunks
encode_crc_blocks data' out = encode_chunks (chunks crc_block_size data') out

-- One round of the `while` of `decode_crc_blocks`: the next `decoded` and `offset`.
unfoldable pub decode_block : List ℕ → ℕ → List ℕ → ℕ → Result (List ℕ × ℕ)
unfolding verify_crc
decode_block encoded payload_len decoded offset =
    let block_len = min (payload_len - length decoded) crc_block_size in
    let block = take block_len (drop offset encoded) in
    let crc = take 2 (drop (offset + block_len) encoded) in
    do
      guard (leb (block_len + 2) (length encoded - offset)) unexpected_eof
      verify_crc block crc
      ok (decoded ++ block, offset + (block_len + 2))

-- The `while`. Each round adds a byte at least to `decoded`.
unfoldable pub decode_loop : ℕ → List ℕ → ℕ → List ℕ → ℕ → Result (List ℕ × ℕ)
unfolding decode_block
decode_loop zero encoded payload_len decoded offset =
    if ltb (length decoded) payload_len then stuck else ok (decoded, offset)
decode_loop (suc fuel) encoded payload_len decoded offset =
    elim (ltb (length decoded) payload_len) [
      | true ↦ do
        (decoded', offset') ← decode_block encoded payload_len decoded offset
        decode_loop fuel encoded payload_len decoded' offset'
      | false ↦ ok (decoded, offset)
    ]

unfoldable pub decode_crc_blocks : List ℕ → ℕ → Result (List ℕ)
unfolding decode_loop
decode_crc_blocks encoded payload_len = do
  (decoded, offset) ← decode_loop payload_len encoded payload_len [] 0
  guard (offset == length encoded) (invalid_length offset (length encoded))
  ok decoded
