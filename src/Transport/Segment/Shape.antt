-- ===== src/Transport/Segment/Shape.antt =====
-- The segments of a fragment fit their frames.
use dnp3_rust_lib.Prelude.{
  ℕ, zero, suc, ◌+◌, ◌%◌, ◌<◌, ◌≤◌, ◌≡◌, sym, true, false, Bool-cases, inl, inr, bit_and, List, [],
  ◌∷◌, drop, length, length-take, All, arith, ne→==, refl, ◌≢◌, ltb, ltb→le, ◌∙◌,
}
use mathlib.Core.Path.{subst}
use dnp3_rust_lib.Prelude.Chunks.{chunks, chunks_fuel}
use dnp3_rust_lib.Prelude.Masks.{and_3f}
use dnp3_rust_lib.Prelude.Bytes.{IsBytes}
use dnp3_rust_lib.Core.Error.{ProtocolError, ok, err, unexpected_eof, invalid_length}
use dnp3_rust_lib.Transport.Segment.{
  TransportSegment, decode, decode_header, new_header, segments_from, fragment,
}

-- A six-bit sequence number and at most 249 bytes.
abbrev pub Fits : TransportSegment → Type 0
Fits segment = (segment.header.sequence < 64) × (length segment.payload ≤ 249)

masked-lt : (n : ℕ) → n < 256 → bit_and n 0x3f < 64
masked-lt n h = omega (arith, and_3f n h)

chunks_fuel-Fits :
    (fuel n : ℕ) (xs : List ℕ) → All (λ (c : List ℕ). length c ≤ n) (chunks_fuel fuel n xs)
unfolding chunks_fuel
chunks_fuel-Fits zero n xs = tt
chunks_fuel-Fits (suc fuel) n [] = tt
chunks_fuel-Fits (suc fuel) n (x ∷ xs) =
    (omega (arith, length-take n (x ∷ xs)), chunks_fuel-Fits fuel n (drop n (x ∷ xs)))

segments_from-Fits :
    (count start index : ℕ) (pieces : List (List ℕ))
    → All (λ (c : List ℕ). length c ≤ 249) pieces
    → All Fits (segments_from count start index pieces)
unfolding segments_from new_header
segments_from-Fits count start index [] h = tt
segments_from-Fits count start index (c ∷ cs) (h, hs) = (
  (masked-lt ((start + index % 256) % 256) (omega arith), h),
  segments_from-Fits count start (index + 1) cs hs,
)

pub fragment-cons :
    (x : ℕ) (xs : List ℕ) (start : ℕ)
    → fragment (x ∷ xs) start
      ≡ segments_from (length (chunks 249 (x ∷ xs))) start 0 (chunks 249 (x ∷ xs))
unfolding fragment
fragment-cons x xs start = rw (ne→== (suc (length xs)) 0 (omega arith))

-- Every segment of a fragment that starts at a u8 number has a six-bit sequence number and at most
-- 249 bytes.
pub fragment-Fits :
    (application : List ℕ) (start : ℕ) → start < 256 → All Fits (fragment application start)
unfolding fragment new_header chunks
fragment-Fits [] start h = ((masked-lt start h, omega arith), tt)
fragment-Fits (x ∷ xs) start h = subst (All Fits) (sym (fragment-cons x xs start)) (
    segments_from-Fits _ start 0 (chunks 249 (x ∷ xs))
      (chunks_fuel-Fits (length (x ∷ xs)) 249 (x ∷ xs)))

decode-long :
    (b : ℕ) (rest : List ℕ)
    → ltb 250 (suc (length rest)) ≡ true
    → decode (b ∷ rest) ≡ err (invalid_length 250 (suc (length rest)))
unfolding decode
decode-long b rest h = rw (ne→== (suc (length rest)) 0 (omega arith), h)

decode-short :
    (b : ℕ) (rest : List ℕ)
    → ltb 250 (suc (length rest)) ≡ false
    → decode (b ∷ rest) ≡ ok (record { header = decode_header b; payload = rest })
unfolding decode
decode-short b rest h = rw (ne→== (suc (length rest)) 0 (omega arith), h)

decode_header-lt : (b : ℕ) → b < 256 → (decode_header b).sequence < 64
unfolding decode_header
decode_header-lt b h = masked-lt b h

decode-nil : decode [] ≡ err unexpected_eof
unfolding decode
decode-nil = refl

err-ne-ok : {e : ProtocolError} {s : TransportSegment} → err e ≢ ok s
err-ne-ok h = cc

ok-injective : {s t : TransportSegment} → ok s ≡ ok t → s ≡ t
ok-injective h = cc

-- A segment that bytes decode to has a six-bit sequence number and at most 249 bytes.
pub decoded-Fits :
    (input : List ℕ) (segment : TransportSegment)
    → IsBytes input
    → decode input ≡ ok segment
    → Fits segment
decoded-Fits [] segment hb h = absurd (err-ne-ok (sym decode-nil ∙ h))
decoded-Fits (b ∷ rest) segment (hb, hr) h = elim (Bool-cases (ltb 250 (suc (length rest)))) [
  | inl long ↦ absurd (err-ne-ok (sym (decode-long b rest long) ∙ h))
  | inr short ↦
      subst Fits (ok-injective (sym (decode-short b rest short) ∙ h))
        (decode_header-lt b hb, omega (arith, ltb→le 250 (suc (length rest)) short))
]
