-- ===== src/App/ObjectHeader/RoundTrip.antt =====
-- Object headers are read back, and reading one takes three bytes at least.
use dnp3_rust_lib.Prelude.{ℕ, ◌<◌, ◌^◌, ◌≡◌, refl, List, [], ◌∷◌, ◌++◌}
use dnp3_rust_lib.Prelude.Bytes.{IsByte, to_le_bytes}
use dnp3_rust_lib.Core.Reader.{read_u8, read_u16_le, read_u32_le}
use dnp3_rust_lib.Core.Reader.Reading.{
  Parses, Parses-pure, Parses-bind, Parses-map, Parses-read_u8, Parses-read_u16_le,
  Parses-read_u32_le,
}
use dnp3_rust_lib.Core.Reader.Progress.{
  Progress, Progress-bind, Progress-map, Progress-read_u8, Total, total,
}
use dnp3_rust_lib.App.ObjectHeader.{
  Qualifier, range8, range16, all_objects, count8, count16, count_and_prefix16, indexed32,
  count_and_prefix32, ObjectHeader, new, code, qualifier_bytes, encode, decode_qualifier, decode,
}

-- The numbers of a qualifier fit their Rust types.
abbrev pub IsValid : Qualifier → Type 0
IsValid (range8 start stop) = IsByte start × IsByte stop
IsValid (range16 start stop) = (start < 2 ^ 16) × (stop < 2 ^ 16)
IsValid all_objects = Unit
IsValid (count8 count) = IsByte count
IsValid (count16 count) = count < 2 ^ 16
IsValid (count_and_prefix16 count) = IsByte count
IsValid (indexed32 index) = index < 2 ^ 32
IsValid (count_and_prefix32 count) = IsByte count

Parses-qualifier :
    (q : Qualifier) → IsValid q → Parses (decode_qualifier (code q)) (qualifier_bytes q) q
unfolding decode_qualifier code qualifier_bytes
Parses-qualifier (range8 start stop) v =
    Parses-bind read_u8 _ (start ∷ []) (stop ∷ []) start _ (Parses-read_u8 start)
      (Parses-map read_u8 (range8 start) (stop ∷ []) stop (Parses-read_u8 stop))
Parses-qualifier (range16 start stop) v =
    Parses-bind read_u16_le _ (to_le_bytes 2 start) (to_le_bytes 2 stop) start _
      (Parses-read_u16_le start v.0)
      (Parses-map read_u16_le (range16 start) (to_le_bytes 2 stop) stop
        (Parses-read_u16_le stop v.1))
Parses-qualifier all_objects v = Parses-pure all_objects
Parses-qualifier (count8 count) v =
    Parses-map read_u8 count8 (count ∷ []) count (Parses-read_u8 count)
Parses-qualifier (count16 count) v =
    Parses-map read_u16_le count16 (to_le_bytes 2 count) count (Parses-read_u16_le count v)
Parses-qualifier (count_and_prefix16 count) v =
    Parses-map read_u8 count_and_prefix16 (count ∷ []) count (Parses-read_u8 count)
Parses-qualifier (indexed32 index) v =
    Parses-map read_u32_le indexed32 (to_le_bytes 4 index) index (Parses-read_u32_le index v)
Parses-qualifier (count_and_prefix32 count) v =
    Parses-map read_u8 count_and_prefix32 (count ∷ []) count (Parses-read_u8 count)

-- The bytes that `encode` appends.
abbrev pub header_bytes : ObjectHeader → List ℕ
header_bytes h = h.group ∷ h.variation ∷ code h.qualifier ∷ qualifier_bytes h.qualifier

pub Parses-header_bytes :
    (h : ObjectHeader) → IsValid h.qualifier → Parses decode (header_bytes h) h
unfolding decode
Parses-header_bytes h v =
    Parses-bind read_u8 _ (h.group ∷ [])
      (h.variation ∷ code h.qualifier ∷ qualifier_bytes h.qualifier) h.group _
      (Parses-read_u8 h.group)
      (Parses-bind read_u8 _ (h.variation ∷ []) (code h.qualifier ∷ qualifier_bytes h.qualifier)
        h.variation _ (Parses-read_u8 h.variation)
        (Parses-bind read_u8 _ (code h.qualifier ∷ []) (qualifier_bytes h.qualifier)
          (code h.qualifier) _ (Parses-read_u8 (code h.qualifier))
          (Parses-map (decode_qualifier (code h.qualifier)) (new h.group h.variation)
            (qualifier_bytes h.qualifier) h.qualifier (Parses-qualifier h.qualifier v))))

-- `encode` appends the same bytes to every output, and a header with any qualifier, whose numbers fit
-- their Rust types, is read back from these bytes. Nothing behind them is read.
pub Parses-decode_header :
    (h : ObjectHeader) (out : List ℕ)
    → IsValid h.qualifier
    → (encode h out ≡ out ++ encode h []) × Parses decode (encode h []) h
unfolding encode
Parses-decode_header h out v = (refl, Parses-header_bytes h v)

Total-qualifier : (c : ℕ) → Total (decode_qualifier c)
unfolding decode_qualifier
Total-qualifier c = search total depth 20

-- Reading a header takes three bytes at least.
pub Progress-decode : Progress 3 decode
unfolding decode
Progress-decode = Progress-bind 1 2 read_u8 _ Progress-read_u8 λ group.
    Progress-bind 1 1 read_u8 _ Progress-read_u8 λ variation.
      Progress-bind 1 0 read_u8 _ Progress-read_u8
        λ c. Progress-map 0 (decode_qualifier c) _ (Total-qualifier c).passes
