-- ===== src/App/ApplicationFragment/RoundTrip.antt =====
-- A fragment is read back from its bytes.
use dnp3_rust_lib.Prelude.{
  ℕ, ◌<◌, ◌^◌, ◌≡◌, refl, sym, ap, ◌∙◌, Bool, true, false, List, [], ◌∷◌, ◌++◌, append_assoc,
  append-nil, All, length, length-append, arith, if◌then◌else◌,
}
use mathlib.Core.Path.{subst}
use dnp3_rust_lib.Prelude.Bytes.{to_le_bytes}
use dnp3_rust_lib.Core.Error.{ok}
use dnp3_rust_lib.Core.Reader
use dnp3_rust_lib.Core.Reader.{Reader, ◌>>=◌, pure, lift, remaining, read_u8, read_u16_le}
use dnp3_rust_lib.Core.Reader.Reading.{
  Parses, Parses-pure, Parses-read_u8, Parses-read_u16_le, remaining-eq-length, >>=-of_ok,
}
use dnp3_rust_lib.App.AppControl
use dnp3_rust_lib.App.AppControl.Codes as ControlCodes
use dnp3_rust_lib.App.FunctionCode
use dnp3_rust_lib.App.FunctionCode.{FunctionCode}
use dnp3_rust_lib.App.AppObject.RoundTrip as ObjectRoundTrip
use dnp3_rust_lib.App.ApplicationFragment.{
  ApplicationFragment, includes_iin, encode, decode_objects, decode_fragment, decode,
}
use dnp3_rust_lib.App.ApplicationFragment.Written.{
  WrittenAll, WrittenAll-objects, NoObjects, nil-NoObjects,
}

-- Only a response carries the internal indications.
abbrev pub IsValid : ApplicationFragment → Type 0
IsValid f =
    (f.control.sequence < 16)
    × (if includes_iin f.function then f.iin < 2 ^ 16 else (f.iin ≡ 0))
    × All ObjectRoundTrip.IsValid f.objects

Parses-iin :
    (b : Bool) (iin : ℕ)
    → (if b then iin < 2 ^ 16 else (iin ≡ 0))
    → Parses (if b then read_u16_le else pure 0) (if b then to_le_bytes 2 iin else []) iin
Parses-iin true iin h = Parses-read_u16_le iin h
Parses-iin false iin h = subst (Parses (pure 0) []) (sym h) (Parses-pure 0)

-- The bytes before the objects.
abbrev prefix : ApplicationFragment → List ℕ
prefix f =
    AppControl.encode f.control
    ∷ FunctionCode.encode f.function
    ∷ (if includes_iin f.function then to_le_bytes 2 f.iin else [])

decode-written :
    (f : ApplicationFragment)
    → IsValid f
    → (ws : WrittenAll f.objects) (tail : List ℕ) → NoObjects tail
    → decode (prefix f ++ (ws.bytes ++ tail)) ≡ ok f
unfolding decode decode_fragment Reader.new
decode-written f (hs, hi, ho) ws tail none =
    let (r1, e1, u1) =
      Parses-read_u8 (AppControl.encode f.control) (Reader.new (prefix f ++ (ws.bytes ++ tail))) _
        refl in
    let (r2, e2, u2) = Parses-read_u8 (FunctionCode.encode f.function) r1 _ u1 in
    let (r3, e3, u3) = Parses-iin (includes_iin f.function) f.iin hi r2 (ws.bytes ++ tail) u2 in
    let (r4, e4) = ws.read tail none (remaining r3) r3 u3 (
      omega (
        arith,
        ws.enough,
        remaining-eq-length r3,
        ap (length {A = ℕ}) u3,
        length-append ws.bytes tail,
      )) in
    let read : decode_fragment (Reader.new (prefix f ++ (ws.bytes ++ tail))) ≡ ok (f, r4) =
      >>=-of_ok read_u8 _ (Reader.new (prefix f ++ (ws.bytes ++ tail))) e1
      ∙ >>=-of_ok read_u8 _ r1 e2
      ∙ >>=-of_ok (lift (FunctionCode.decode (FunctionCode.encode f.function))) _ r2
          (rw (FunctionCode.decode-encode_function f.function, lift))
      ∙ >>=-of_ok (if includes_iin f.function then read_u16_le else pure 0) _ r2 e3
      ∙ >>=-of_ok (λ r. decode_objects (remaining r) r) _ r3 e4
      ∙ (λ i.
          ok (record f { control = ControlCodes.decode-encode_app_control f.control hs i }, r4)) in
    rw read

-- A fragment is encoded, and its bytes decode to the same fragment, when its sequence number has four
-- bits, its internal indications are a u16, or 0 for a function that is no response, and each object is
-- valid: the fields of its points fit their types, indices that are a run do not pass 0xffff, points
-- with other indices are at most 255, and it is no scan of class 0.
pub decode-encode_fragment :
    (f : ApplicationFragment)
    → IsValid f
    → (bytes : List ℕ) × (encode f ≡ ok bytes) × (decode bytes ≡ ok f)
unfolding encode
decode-encode_fragment f v =
    let ws = WrittenAll-objects f.objects v.2 in
    (
      prefix f ++ ws.bytes,
      ws.written (prefix f),
      ap decode (ap (λ t. prefix f ++ t) (sym (append-nil ws.bytes)))
          ∙ decode-written f v ws [] nil-NoObjects,
    )

-- The same with bytes behind the fragment that hold no object.
pub decode-encode_tail :
    (f : ApplicationFragment) (tail : List ℕ)
    → IsValid f
    → NoObjects tail
    → (bytes : List ℕ) × (encode f ≡ ok bytes) × (decode (bytes ++ tail) ≡ ok f)
unfolding encode
decode-encode_tail f tail v none =
    let ws = WrittenAll-objects f.objects v.2 in
    (
      prefix f ++ ws.bytes,
      ws.written (prefix f),
      ap decode (append_assoc (prefix f) ws.bytes tail) ∙ decode-written f v ws tail none,
    )
