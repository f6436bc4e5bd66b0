-- ===== src/App/ApplicationFragment/Padding.antt =====
-- Padding behind a fragment: `skip_padding_zeros` in the `while` of `ApplicationFragment::decode`.
use dnp3_rust_lib.Prelude.{
  ℕ, zero, suc, ◌+◌, ◌<◌, ◌≤◌, ◌≡◌, refl, sym, ap, ◌∙◌, true, false, ◌&&◌, List, [], ◌∷◌, ◌++◌,
  length, take, drop, drop-drop, arith, ltb, leb, Bool-cases, inl, inr, lt→ltb, le→leb, lt→leb,
}
use dnp3_rust_lib.Prelude.Bytes.{bytes_eq}
use dnp3_rust_lib.Core.Error.{ok}
use dnp3_rust_lib.Core.Reader.{Reader, unread, remaining, skip_padding_loop, skip_padding_zeros}
use dnp3_rust_lib.Core.Reader.Reading.{Reads, remaining-eq-length, >>=-of_ok}
use dnp3_rust_lib.App.ApplicationFragment.{
  ApplicationFragment, encode, decode_round, decode_objects, decode,
}
use dnp3_rust_lib.App.ApplicationFragment.Written.{NoObjects, decode_objects-end}
use dnp3_rust_lib.App.ApplicationFragment.RoundTrip.{IsValid, decode-encode_tail}

-- So many groups of four zeros.
abbrev pub padding : ℕ → List ℕ
padding zero = []
padding (suc groups) = 0 ∷ 0 ∷ 0 ∷ 0 ∷ padding groups

skip_padding_loop-padding :
    (groups fuel : ℕ) (r : Reader) (tail : List ℕ)
    → unread r ≡ padding groups ++ tail
    → length tail < 3
    → groups < fuel
    → Reads (skip_padding_loop fuel) r tt tail
unfolding skip_padding_loop
skip_padding_loop-padding groups zero r tail h ht k = absurd (omega arith)
skip_padding_loop-padding zero (suc fuel) r tail h ht k = (r, rw (stop, skip_padding_loop), h)
  where
    short : leb 4 (remaining r) ≡ false
    short = lt→leb _ _ (omega (arith, remaining-eq-length r, ap (length {A = ℕ}) h))

    stop : (leb 4 (remaining r) && bytes_eq (take 4 (unread r)) (0 ∷ 0 ∷ 0 ∷ 0 ∷ [])) ≡ false
    stop = ap (λ b. b && bytes_eq (take 4 (unread r)) (0 ∷ 0 ∷ 0 ∷ 0 ∷ [])) short
skip_padding_loop-padding (suc groups) (suc fuel) r tail h ht k =
    let (r', e, u) =
      skip_padding_loop-padding groups fuel (record r { cursor = r.cursor + 4 }) tail passed ht
        (omega arith) in
    (r', rw (more, skip_padding_loop) e, u)
  where
    passed : unread (record r { cursor = r.cursor + 4 }) ≡ padding groups ++ tail
    passed = sym (drop-drop 4 r.cursor r.input) ∙ ap (drop 4) h

    long : leb 4 (remaining r) ≡ true
    long = le→leb _ _ (omega (arith, remaining-eq-length r, ap (length {A = ℕ}) h))

    more : (leb 4 (remaining r) && bytes_eq (take 4 (unread r)) (0 ∷ 0 ∷ 0 ∷ 0 ∷ [])) ≡ true
    more = rw (long, h) refl

groups-le : (groups : ℕ) (tail : List ℕ) → groups ≤ length (padding groups ++ tail)
groups-le zero tail = omega arith
groups-le (suc groups) tail = omega (arith, groups-le groups tail)

skip_padding_zeros-padding :
    (groups : ℕ) (r : Reader) (tail : List ℕ)
    → unread r ≡ padding groups ++ tail
    → length tail < 3
    → Reads skip_padding_zeros r tt tail
unfolding skip_padding_zeros
skip_padding_zeros-padding groups r tail h ht =
    skip_padding_loop-padding groups (suc (remaining r)) r tail h ht
      (omega (arith, remaining-eq-length r, ap (length {A = ℕ}) h, groups-le groups tail))

padding-NoObjects :
    (groups : ℕ) (tail : List ℕ) → length tail < 3 → NoObjects (padding groups ++ tail)
unfolding decode_objects
padding-NoObjects groups tail ht zero r h k = (
  r,
  decode_objects-end zero r
      (lt→ltb _ _ (omega (arith, remaining-eq-length r, ap (length {A = ℕ}) h))),
)
padding-NoObjects groups tail ht (suc fuel) r h k = elim (Bool-cases (ltb (remaining r) 3)) [
  | inl short ↦ (r, decode_objects-end (suc fuel) r short)
  | inr long ↦
      let (r', e, u) = skip_padding_zeros-padding groups r tail h ht in
      let end : ltb (remaining r') 3 ≡ true =
        lt→ltb _ _ (omega (arith, remaining-eq-length r', ap (length {A = ℕ}) u)) in
      (
        r',
        rw (long, decode_objects)
            (>>=-of_ok skip_padding_zeros (λ _. decode_round (decode_objects fuel)) r e
              ∙ rw (end, decode_round)),
      )
]

-- A valid fragment is read back from its bytes also with padding behind them: groups of four zeros, as
-- many as there are, and at most two more bytes of any value.
pub decode-encode_padded :
    (f : ApplicationFragment) (groups : ℕ) (tail : List ℕ)
    → IsValid f
    → length tail < 3
    → (bytes : List ℕ) × (encode f ≡ ok bytes) × (decode (bytes ++ (padding groups ++ tail)) ≡ ok f)
decode-encode_padded f groups tail v ht =
    decode-encode_tail f (padding groups ++ tail) v (padding-NoObjects groups tail ht)
