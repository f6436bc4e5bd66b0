-- ===== src/Core/Address.antt =====
-- `Address` of crates/dnp3-core/src/lib.rs: a newtype over u16.
use dnp3_rust_lib.Prelude.{ℕ, ◌^◌, ◌<◌, Bool, List, ◌++◌, ◌==◌}
use dnp3_rust_lib.Prelude.Bytes.{to_le_bytes}
use dnp3_rust_lib.Core.Reader.{Parser, ◌>>=◌, pure, read_u16_le}
use dnp3_rust_lib.Core.Reader.Reading.{Parses, Parses-map, Parses-read_u16_le}
use dnp3_rust_lib.Core.Reader.Progress.{Progress, Progress-map, Progress-read_u16_le}

pub record Address : Type 0 where
  pub value : ℕ

-- The value is a u16.
abbrev pub IsValid : Address → Type 0
IsValid a = a.value < 2 ^ 16

-- `Address::new`
abbrev pub new : ℕ → Address
new value = record { value = value }

-- `Address::BROADCAST`
abbrev pub broadcast : Address
broadcast = new 0xffff

-- The derived `==`.
abbrev pub address_eq : Address → Address → Bool
address_eq a b = a.value == b.value

unfoldable pub encode : Address → List ℕ → List ℕ
encode a out = out ++ to_le_bytes 2 a.value

unfoldable pub decode : Parser Address
unfolding read_u16_le
decode = do value ← read_u16_le; pure (new value)

pub Parses-decode : (a : Address) → IsValid a → Parses decode (to_le_bytes 2 a.value) a
unfolding decode
Parses-decode a h =
    Parses-map read_u16_le new (to_le_bytes 2 a.value) a.value (Parses-read_u16_le a.value h)

pub Progress-decode : Progress 2 decode
unfolding decode
Progress-decode = Progress-map 2 read_u16_le new Progress-read_u16_le
