-- ===== src/App/ObjectHeader.antt =====
-- `Qualifier` and `ObjectHeader` of crates/dnp3-app/src/lib.rs.
pub mod RoundTrip
use dnp3_rust_lib.Prelude.{
  ℕ, ◌/◌, ◌^◌, Bool, true, false, not, ◌&&◌, ◌||◌, bit_and, List, [], ◌∷◌, ◌++◌, leb, ◌==◌,
  if◌then◌else◌,
}
use dnp3_rust_lib.Prelude.Bytes.{to_le_bytes}
use dnp3_rust_lib.Core.Error.{Result, ok, err, unknown_value}
use dnp3_rust_lib.Core.Reader.{Parser, ◌>>=◌, pure, lift, read_u8, read_u16_le, read_u32_le}

pub data Qualifier : Type 0 where
  -- start, stop
  range8 : ℕ → ℕ → Qualifier
  range16 : ℕ → ℕ → Qualifier
  all_objects : Qualifier
  count8 : ℕ → Qualifier
  count16 : ℕ → Qualifier
  count_and_prefix16 : ℕ → Qualifier
  indexed32 : ℕ → Qualifier
  count_and_prefix32 : ℕ → Qualifier

-- `Qualifier::code`
unfoldable pub code : Qualifier → ℕ
code (range8 start stop) = 0x00
code (range16 start stop) = 0x01
code all_objects = 0x06
code (count8 count) = 0x07
code (count16 count) = 0x08
code (count_and_prefix16 count) = 0x28
code (count_and_prefix32 count) = 0x38
code (indexed32 index) = 0x14

-- `Qualifier::count`
unfoldable pub qualifier_count : Qualifier → Result ℕ
unfolding code
qualifier_count (count8 count) = ok count
qualifier_count (count_and_prefix16 count) = ok count
qualifier_count (count_and_prefix32 count) = ok count
qualifier_count (count16 count) = ok count
qualifier_count q = err (unknown_value "object qualifier without count" (code q))

-- `matches!(value, ...)`
abbrev pub one_of : ℕ → List ℕ → Bool
one_of value [] = false
one_of value (x ∷ xs) = value == x || one_of value xs

unfoldable pub is_simulator_indexed_qualifier : ℕ → Bool
is_simulator_indexed_qualifier c =
    one_of c (0x38 ∷ 0x58 ∷ 0x61 ∷ 0x82 ∷ 0x8f ∷ 0x9f ∷ 0xa2 ∷ 0xad ∷ 0xb2 ∷ 0xd8 ∷ 0xf8 ∷ [])
    || ((bit_and c 0x0f == 0x0f && leb 0x8 (c / 2 ^ 4))
        || (leb 0xa (c / 2 ^ 4) && (leb 0x0c (bit_and c 0x0f) && leb (bit_and c 0x0f) 0x0e)))

unfoldable pub is_count_and_prefix16_qualifier : ℕ → Bool
unfolding is_simulator_indexed_qualifier
is_count_and_prefix16_qualifier c =
    not (is_simulator_indexed_qualifier c)
    && (one_of c (0x17 ∷ 0x22 ∷ 0x28 ∷ []) || (bit_and c 0x0f == 0x02 && leb (c / 2 ^ 4) 0x0a))

pub record ObjectHeader : Type 0 where
  pub group : ℕ
  pub variation : ℕ
  pub qualifier : Qualifier

-- `ObjectHeader::new`
abbrev pub new : ℕ → ℕ → Qualifier → ObjectHeader
new group variation qualifier = record {
  group = group;
  variation = variation;
  qualifier = qualifier;
}

-- The `match` of `encode`: the bytes behind the qualifier code.
unfoldable pub qualifier_bytes : Qualifier → List ℕ
qualifier_bytes (range8 start stop) = start ∷ stop ∷ []
qualifier_bytes (range16 start stop) = to_le_bytes 2 start ++ to_le_bytes 2 stop
qualifier_bytes all_objects = []
qualifier_bytes (count8 count) = count ∷ []
qualifier_bytes (count_and_prefix16 count) = count ∷ []
qualifier_bytes (count16 count) = to_le_bytes 2 count
qualifier_bytes (count_and_prefix32 count) = count ∷ []
qualifier_bytes (indexed32 index) = to_le_bytes 4 index

unfoldable pub encode : ObjectHeader → List ℕ → List ℕ
unfolding code qualifier_bytes
encode h out = out ++ (h.group ∷ h.variation ∷ code h.qualifier ∷ qualifier_bytes h.qualifier)

-- The `match` of `decode` on the qualifier code.
unfoldable pub decode_qualifier : ℕ → Parser Qualifier
unfolding is_simulator_indexed_qualifier is_count_and_prefix16_qualifier
decode_qualifier c =
    if c == 0x00
    then (do start ← read_u8; stop ← read_u8; pure (range8 start stop))
    else if c == 0x01
    then (do start ← read_u16_le; stop ← read_u16_le; pure (range16 start stop))
    else if c == 0x06
    then pure all_objects
    else if c == 0x07
    then (do count ← read_u8; pure (count8 count))
    else if c == 0x08
    then (do count ← read_u16_le; pure (count16 count))
    else if c == 0x14
    then (do index ← read_u32_le; pure (indexed32 index))
    else if is_simulator_indexed_qualifier c
    then (do count ← read_u8; pure (count_and_prefix32 count))
    else if is_count_and_prefix16_qualifier c
    then (do count ← read_u8; pure (count_and_prefix16 count))
    else lift (err (unknown_value "object qualifier" c))

unfoldable pub decode : Parser ObjectHeader
unfolding decode_qualifier
decode = do
  group ← read_u8
  variation ← read_u8
  qualifier_code ← read_u8
  qualifier ← decode_qualifier qualifier_code
  pure (new group variation qualifier)
