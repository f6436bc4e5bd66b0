-- ===== src/App/ApplicationFragment/Written.antt =====
-- The objects of a fragment: the bytes that they are written as, and what reads them.
use dnp3_rust_lib.Prelude.{
  ℕ, zero, suc, ◌+◌, ◌≤◌, ◌<◌, ◌≡◌, refl, sym, ap, ◌∙◌, Bool, true, false, ◌&&◌, List, [], ◌∷◌,
  ◌++◌, append_assoc, append-nil, All, length, length-append, take, arith, ltb, leb, lt→ltb, le→ltb,
  ne→==,
}
use dnp3_rust_lib.Prelude.Bytes.{bytes_eq}
use dnp3_rust_lib.Core.Error.{ok}
use dnp3_rust_lib.Core.Reader.{
  Reader, Parser, ◌>>=◌, pure, unread, remaining, skip_padding_loop, skip_padding_zeros,
}
use dnp3_rust_lib.Core.Reader.Reading.{remaining-eq-length, >>=-of_ok}
use dnp3_rust_lib.App.ObjectHeader
use dnp3_rust_lib.App.ObjectHeader.{ObjectHeader}
use dnp3_rust_lib.App.ObjectHeader.RoundTrip as HeaderRoundTrip
use dnp3_rust_lib.App.ObjectHeader.RoundTrip.{header_bytes}
use dnp3_rust_lib.App.AppObject
use dnp3_rust_lib.App.AppObject.{AppObject}
use dnp3_rust_lib.App.AppObject.RoundTrip.{Written, Written-object}
use dnp3_rust_lib.App.AppObject.RoundTrip as ObjectRoundTrip
use dnp3_rust_lib.App.ApplicationFragment.{encode_objects, decode_round, decode_objects}

and_false : (b : Bool) → (b && false) ≡ false
and_false true = refl
and_false false = refl

skip_padding_loop-marked :
    (fuel : ℕ) (r : Reader) (b : ℕ) (rest : List ℕ)
    → unread r ≡ b ∷ rest
    → 0 < b
    → skip_padding_loop (suc fuel) r ≡ ok (tt, r)
unfolding skip_padding_loop
skip_padding_loop-marked fuel r b rest h hb = rw (stop, skip_padding_loop)
  where
    no_zeros : bytes_eq (take 4 (unread r)) (0 ∷ 0 ∷ 0 ∷ 0 ∷ []) ≡ false
    no_zeros = rw (h, ne→== b 0 (omega arith)) refl

    stop : (leb 4 (remaining r) && bytes_eq (take 4 (unread r)) (0 ∷ 0 ∷ 0 ∷ 0 ∷ [])) ≡ false
    stop = rw no_zeros (and_false (leb 4 (remaining r)))

skip_padding_zeros-marked :
    (r : Reader) (b : ℕ) (rest : List ℕ)
    → unread r ≡ b ∷ rest
    → 0 < b
    → skip_padding_zeros r ≡ ok (tt, r)
unfolding skip_padding_zeros
skip_padding_zeros-marked r b rest h hb = skip_padding_loop-marked (remaining r) r b rest h hb

abbrev pub Returns {ℓ} : {A : Type ℓ} → Parser A → Reader → A → Type ℓ
Returns m r v = (r' : Reader) × (m r ≡ ok (v, r'))

-- Bytes at the end of the input that hold no object, on fuel for each of them.
abbrev pub NoObjects : List ℕ → Type 0
NoObjects tail =
    (fuel : ℕ) (r : Reader)
    → unread r ≡ tail
    → length tail ≤ fuel
    → Returns (decode_objects fuel) r []

-- The bytes that `encode_objects` appends, and that `decode_objects` reads them up to the end of the
-- input on fuel for each object and each byte behind them.
pub record WrittenAll (objects : List AppObject) : Type 0 where
  pub bytes : List ℕ
  pub written : (out : List ℕ) → encode_objects objects out ≡ ok (out ++ bytes)
  pub read :
      (tail : List ℕ)
      → NoObjects tail
      → (fuel : ℕ) (r : Reader) → unread r ≡ bytes ++ tail
      → length objects + length tail ≤ fuel
      → Returns (decode_objects fuel) r objects
  pub enough : length objects ≤ length bytes

pub decode_objects-end :
    (fuel : ℕ) (r : Reader) → ltb (remaining r) 3 ≡ true → decode_objects fuel r ≡ ok ([], r)
unfolding decode_objects
decode_objects-end zero r h = rw (h, decode_objects)
decode_objects-end (suc fuel) r h = rw (h, decode_objects)

decode_objects-step :
    (fuel : ℕ) (r : Reader)
    → ltb (remaining r) 3 ≡ false
    → skip_padding_zeros r ≡ ok (tt, r)
    → decode_objects (suc fuel) r
      ≡ (do
        header ← ObjectHeader.decode
        object ← AppObject.decode header
        rest ← decode_objects fuel
        pure (object ∷ rest))
          r
unfolding decode_objects
decode_objects-step fuel r h k =
    rw (h, decode_objects)
      (>>=-of_ok skip_padding_zeros (λ _. decode_round (decode_objects fuel)) r k
        ∙ rw (h, decode_round))

pub nil-NoObjects : NoObjects []
nil-NoObjects fuel r h k = (
  r,
  decode_objects-end fuel r
      (lt→ltb _ _ (omega (arith, remaining-eq-length r, ap (length {A = ℕ}) h))),
)

WrittenAll-cons :
    (object : AppObject) (rest : List AppObject)
    → Written object
    → WrittenAll rest
    → WrittenAll (object ∷ rest)
unfolding encode_objects ObjectHeader.encode
WrittenAll-cons object rest w ws = record {
  bytes = bytes;
  written = λ out. rw (w.written out) (
      ws.written _
      ∙ ap ok (
          append_assoc (out ++ header_bytes w.header) w.body ws.bytes
          ∙ append_assoc out (header_bytes w.header) (w.body ++ ws.bytes)));
  read = read;
  enough = omega (
    arith,
    ws.enough,
    length-append w.body ws.bytes,
    length-append (header_bytes w.header) (w.body ++ ws.bytes),
  );
}
  where
    bytes : List ℕ
    bytes = header_bytes w.header ++ (w.body ++ ws.bytes)

    read :
        (tail : List ℕ)
        → NoObjects tail
        → (fuel : ℕ) (r : Reader) → unread r ≡ bytes ++ tail
        → suc (length rest) + length tail ≤ fuel
        → Returns (decode_objects fuel) r (object ∷ rest)
    read tail none zero r h k = absurd (omega arith)
    read tail none (suc fuel) r h k =
        let three : ltb (remaining r) 3 ≡ false =
          le→ltb _ _ (omega (arith, remaining-eq-length r, ap (length {A = ℕ}) h)) in
        let (r1, e1, u1) =
          HeaderRoundTrip.Parses-header_bytes w.header w.valid r ((w.body ++ ws.bytes) ++ tail)
            (h ∙ append_assoc (header_bytes w.header) (w.body ++ ws.bytes) tail) in
        let (r2, e2, u2) = w.read r1 (ws.bytes ++ tail) (u1 ∙ append_assoc w.body ws.bytes tail) in
        let (r3, e3) = ws.read tail none fuel r2 u2 (omega arith) in
        (
          r3,
          decode_objects-step fuel r three (skip_padding_zeros-marked r _ _ h w.marked)
              ∙ >>=-of_ok ObjectHeader.decode _ r e1
              ∙ >>=-of_ok (AppObject.decode w.header) _ r1 e2
              ∙ >>=-of_ok (decode_objects fuel) _ r2 e3,
        )

pub WrittenAll-objects :
    (objects : List AppObject) → All ObjectRoundTrip.IsValid objects → WrittenAll objects
unfolding encode_objects
WrittenAll-objects [] h = record {
  bytes = [];
  written = λ out. ap ok (sym (append-nil out));
  read = λ tail none fuel r h k. none fuel r h (omega arith);
  enough = omega arith;
}
WrittenAll-objects (object ∷ rest) (h, hs) =
    WrittenAll-cons object rest (Written-object object h) (WrittenAll-objects rest hs)
