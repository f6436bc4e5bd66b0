-- ===== src/App/Points/Packed.antt =====
-- The packed formats: `decode_binary_packed`, `decode_double_bit_packed` and the group dispatchers.
use dnp3_rust_lib.Prelude.{
  ℕ, zero, suc, ◌+◌, ◌-◌, ◌*◌, ◌/◌, ◌%◌, ◌^◌, ◌&&◌, bit_and, List, [], ◌∷◌, ◌++◌, ◌==◌, ◌!=◌,
  if◌then◌else◌,
}
use dnp3_rust_lib.Core.Error.{stuck}
use dnp3_rust_lib.Core.Reader.{Parser, ◌>>=◌, pure, lift, read_u8}
use dnp3_rust_lib.App.ObjectHeader.{Qualifier, range8, range16, indexed32}
use dnp3_rust_lib.App.Points.{BinaryInput, BinaryOutput, range16_count, range8_count, u16_or_max}
use dnp3_rust_lib.App.Points.Binary.{decode_binary_points, decode_binary_like}

unfoldable pub packed_binary_flags : ℕ → ℕ → ℕ
packed_binary_flags byte index_offset =
    if bit_and (byte / 2 ^ index_offset) 0x01 != 0 then 0x81 else 0x00

unfoldable pub packed_double_bit_flags : ℕ → ℕ → ℕ
packed_double_bit_flags byte index_offset =
    let bits = bit_and (byte / 2 ^ (index_offset * 2)) 0x03 in
    if bits == 2 then 0x81 else if bits == 1 then 0x41 else if bits == 3 then 0xc1 else 0x01

-- The inner `for` on one byte: the points of `slots` slots from `slot` on, while any remain.
unfoldable pub packed_slots : ℕ → ℕ → ℕ → (ℕ → BinaryInput) → List BinaryInput
packed_slots zero slot remaining point = []
packed_slots (suc slots) slot remaining point =
    if remaining == 0 then [] else point slot ∷ packed_slots slots (slot + 1) (remaining - 1) point

-- The `while`: each round reads a byte and takes up to `slots` points from it. `remaining` falls by
-- that many, `point` gets the byte's number, the byte and the slot.
unfoldable pub packed_loop : ℕ → ℕ → ℕ → ℕ → (ℕ → ℕ → ℕ → BinaryInput) → Parser (List BinaryInput)
unfolding packed_slots
packed_loop zero slots remaining byte_offset point = if remaining == 0 then pure [] else lift stuck
packed_loop (suc fuel) slots remaining byte_offset point = elim remaining [
  | zero ↦ pure []
  | suc more ↦ do
    byte ← read_u8
    values ← packed_loop fuel slots (suc more - slots) (byte_offset + 1) point
    pure (packed_slots slots 0 (suc more) (point byte_offset byte) ++ values)
]

-- The two point rules of each packed decoder.
abbrev pub binary_slot : ℕ → ℕ → ℕ → ℕ → ℕ → BinaryInput
binary_slot modulus start byte_offset byte bit = record {
  index = (start + (byte_offset * 8 + bit)) % modulus;
  flags = packed_binary_flags byte bit;
}

abbrev pub double_bit_slot : ℕ → ℕ → ℕ → ℕ → ℕ → BinaryInput
double_bit_slot modulus start byte_offset byte slot = record {
  index = (start + (byte_offset * 4 + slot)) % modulus;
  flags = packed_double_bit_flags byte slot;
}

unfoldable pub decode_binary_packed : Qualifier → Parser (List BinaryInput)
unfolding packed_loop packed_binary_flags
decode_binary_packed (range16 start stop) = do
  count ← lift (range16_count start stop)
  packed_loop count 8 count 0 (binary_slot (2 ^ 16) start)
decode_binary_packed (range8 start stop) =
    packed_loop (range8_count start stop) 8 (range8_count start stop) 0 (binary_slot 256 start)
decode_binary_packed q = decode_binary_points 1 2 q

unfoldable pub decode_double_bit_packed : Qualifier → Parser (List BinaryInput)
unfolding packed_loop packed_double_bit_flags
decode_double_bit_packed (range16 start stop) = do
  count ← lift (range16_count start stop)
  packed_loop count 4 count 0 (double_bit_slot (2 ^ 16) start)
decode_double_bit_packed (range8 start stop) =
    packed_loop (range8_count start stop) 4 (range8_count start stop) 0 (double_bit_slot 256 start)
decode_double_bit_packed q = decode_binary_points 3 2 q

unfoldable pub decode_binary_group : ℕ → ℕ → Qualifier → Parser (List BinaryInput)
unfolding decode_binary_packed decode_binary_points
decode_binary_group group variation q =
    if group == 1 && variation == 1
    then decode_binary_packed q
    else decode_binary_points group variation q

unfoldable pub decode_double_bit_group : ℕ → ℕ → Qualifier → Parser (List BinaryInput)
unfolding decode_double_bit_packed decode_binary_points
decode_double_bit_group group variation q =
    if group == 3 && variation == 1
    then decode_double_bit_packed q
    else decode_binary_points group variation q

-- Packed outputs have only the indexed form of their own.
unfoldable pub decode_binary_output_packed : Qualifier → Parser (List BinaryOutput)
unfolding decode_binary_like
decode_binary_output_packed (indexed32 index) = do
  flags ← read_u8
  pure (record { index = u16_or_max index; flags = flags } ∷ [])
decode_binary_output_packed q = decode_binary_like q
