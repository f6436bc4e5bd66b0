-- ===== src/Core/Crc/Exact.antt =====
-- `decode_crc_blocks` accepts nothing but what `encode_crc_blocks` writes, and always ends.
use dnp3_rust_lib.Prelude.{
  ℕ, zero, suc, ◌+◌, ◌-◌, ◌≤◌, ◌<◌, ◌≡◌, ◌≢◌, sym, ap, ◌∙◌, min, List, [], ◌++◌, append_assoc,
  append-nil, length, take, drop, drop_all, length-append, length-take, length-drop,
  take-append-drop, drop-drop, arith, leb, ltb, ==→eq, leb→le, All-take, All-drop, Bool-cases, inl,
  inr, ◌⊎◌, ltb→le, ltb→lt, ◌==◌,
}
use mathlib.Core.Path.{ap₂}
use dnp3_rust_lib.Prelude.Bytes.{
  IsByte, IsBytes, to_le_bytes, from_le_bytes, to_le_bytes-from_le_bytes,
}
use dnp3_rust_lib.Core.Error.{
  Result, ok, err, stuck, >>=-eq-ok, guard-eq-ok, guard-ne-stuck, >>=-ne-stuck, invalid_length,
  ok-ne-stuck, guard,
}
use dnp3_rust_lib.Core.Crc.{
  crc16, verify_crc, encode_crc_blocks, decode_block, decode_loop, decode_crc_blocks,
}
use dnp3_rust_lib.Core.Crc.Blocks.{crc_bytes, encode_crc_blocks_first, encode_crc_blocks-nil}

-- Only the block's own CRC passes.
pub verify_crc-eq-ok :
    (block crc : List ℕ) → IsBytes crc → verify_crc block crc ≡ ok tt → crc ≡ crc_bytes block
unfolding verify_crc
verify_crc-eq-ok block crc h e = sym (to_le_bytes-from_le_bytes crc h) ∙ ap₂ to_le_bytes two same
  where
    two : length crc ≡ 2
    two = ground arith

    same : from_le_bytes crc ≡ crc16 block
    same = ground arith

-- What one round has read.
record Block (encoded : List ℕ) (payload_len : ℕ) (decoded : List ℕ) (offset : ℕ)
    (decoded' : List ℕ) (offset' : ℕ) : Type 0 where
  block : List ℕ
  sized : length block ≡ min (payload_len - length decoded) 16
  gained : decoded' ≡ decoded ++ block
  moved : offset' ≡ offset + (length block + 2)
  framed : drop offset encoded ≡ block ++ (crc_bytes block ++ drop offset' encoded)

cut_frame :
    (encoded : List ℕ) (offset n offset' : ℕ)
    → offset' ≡ offset + n + 2
    → drop offset encoded
      ≡ take n (drop offset encoded) ++ (take 2 (drop (offset + n) encoded) ++ drop offset' encoded)
cut_frame encoded offset n offset' h =
    sym (take-append-drop n (drop offset encoded))
    ∙ ap (λ (t : List ℕ). take n (drop offset encoded) ++ t)
        (drop-drop n offset encoded
          ∙ sym (take-append-drop 2 (drop (offset + n) encoded))
          ∙ ap (λ (t : List ℕ). take 2 (drop (offset + n) encoded) ++ t)
              (drop-drop 2 (offset + n) encoded ∙ ap (λ (k : ℕ). drop k encoded) (sym h)))

abbrev second : Result (List ℕ × ℕ) → ℕ
second (ok p) = p.1
second (err _) = 0
second stuck = 0

decode_block-Block :
    (encoded decoded decoded' : List ℕ) (payload_len offset offset' : ℕ)
    → IsBytes encoded
    → decode_block encoded payload_len decoded offset ≡ ok (decoded', offset')
    → Block encoded payload_len decoded offset decoded' offset'
unfolding decode_block
decode_block-Block encoded decoded decoded' payload_len offset offset' bytes e =
    let n = min (payload_len - length decoded) 16 in
    let b = take n (drop offset encoded) in
    let c = take 2 (drop (offset + n) encoded) in
    let (u, room, e1) = >>=-eq-ok (guard (leb (n + 2) (length encoded - offset)) _) _ e in
    let (v, own, e2) = >>=-eq-ok (verify_crc b c) _ e1 in
    let enough = leb→le _ _ (guard-eq-ok _ _ room) in
    let sized : length b ≡ n =
      omega (arith, length-take n (drop offset encoded), length-drop offset encoded) in
    let moved : offset' ≡ offset + (length b + 2) =
      omega (arith, ap (λ (x : Result (List ℕ × ℕ)). second x) e2) in
    let own_crc : c ≡ crc_bytes b =
      verify_crc-eq-ok b c (All-take IsByte 2 _ (All-drop IsByte (offset + n) encoded bytes)) own in
    record {
      block = b;
      sized = sized;
      gained = cc;
      moved = moved;
      framed =
          cut_frame encoded offset n offset' (omega arith)
          ∙ ap (λ (t : List ℕ). b ++ (t ++ drop offset' encoded)) own_crc;
    }

-- A loop that ends well has read the blocks of what it added to `decoded`.
record Blocks (encoded : List ℕ) (payload_len : ℕ) (decoded : List ℕ) (offset : ℕ)
    (decoded' : List ℕ) (offset' : ℕ) : Type 0 where
  added : List ℕ
  gained : decoded' ≡ decoded ++ added
  sized : length decoded' ≡ payload_len
  framed : drop offset encoded ≡ encode_crc_blocks added [] ++ drop offset' encoded

Blocks-done :
    (encoded decoded decoded' : List ℕ) (payload_len offset offset' : ℕ)
    → length decoded ≡ payload_len
    → ◌≡◌ {A = Result (List ℕ × ℕ)} (ok (decoded, offset)) (ok (decoded', offset'))
    → Blocks encoded payload_len decoded offset decoded' offset'
Blocks-done encoded decoded decoded' payload_len offset offset' full e =
    let same : decoded' ≡ decoded = cc in
    record {
      added = [];
      gained = same ∙ sym (append-nil decoded);
      sized = ap (length {A = ℕ}) same ∙ full;
      framed = rw encode_crc_blocks-nil cc;
    }

Blocks-round :
    (encoded decoded d1 decoded' : List ℕ) (payload_len offset o1 offset' : ℕ)
    → length decoded < payload_len
    → Block encoded payload_len decoded offset d1 o1
    → Blocks encoded payload_len d1 o1 decoded' offset'
    → Blocks encoded payload_len decoded offset decoded' offset'
Blocks-round encoded decoded d1 decoded' payload_len offset o1 offset' lt b bs = record {
  added = b.block ++ bs.added;
  gained = bs.gained ∙ rw b.gained (append_assoc decoded b.block bs.added);
  sized = bs.sized;
  framed =
      b.framed
      ∙ ap (λ (t : List ℕ). b.block ++ (crc_bytes b.block ++ t)) bs.framed
      ∙ sym (regroup b.block (crc_bytes b.block) _ _)
      ∙ ap (λ (t : List ℕ). t ++ drop offset' encoded)
          (sym (
            encode_crc_blocks_first b.block bs.added (omega (arith, b.sized))
              (omega (arith, b.sized)) last));
}
  where
    regroup : (u v w x : List ℕ) → (u ++ (v ++ w)) ++ x ≡ u ++ (v ++ (w ++ x))
    regroup u v w x = simp append_assoc

    last : (length b.block ≡ 16) ⊎ (length bs.added ≡ 0)
    last = grind (
      arith,
      b.sized,
      bs.sized,
      ap (length {A = ℕ}) b.gained,
      ap (length {A = ℕ}) bs.gained,
      length-append decoded b.block,
      length-append d1 bs.added,
    )

Block-length :
    {encoded decoded d1 : List ℕ} {payload_len offset o1 : ℕ}
    → Block encoded payload_len decoded offset d1 o1
    → length d1 ≡ length decoded + min (payload_len - length decoded) 16
Block-length {decoded = decoded} b =
    omega (arith, b.sized, ap (length {A = ℕ}) b.gained, length-append decoded b.block)

decode_loop-Blocks :
    (fuel : ℕ) (encoded decoded decoded' : List ℕ) (payload_len offset offset' : ℕ)
    → IsBytes encoded
    → length decoded ≤ payload_len
    → decode_loop fuel encoded payload_len decoded offset ≡ ok (decoded', offset')
    → Blocks encoded payload_len decoded offset decoded' offset'
unfolding decode_loop
decode_loop-Blocks zero encoded decoded decoded' payload_len offset offset' bytes le e =
    elim (Bool-cases (ltb (length decoded) payload_len)) [
      | inl more ↦ absurd (cc (rw (more, decode_loop) at e))
      | inr full ↦
          Blocks-done encoded decoded decoded' payload_len offset offset'
            (omega (arith, ltb→le _ _ full)) (rw (full, decode_loop) at e)
    ]
decode_loop-Blocks (suc fuel) encoded decoded decoded' payload_len offset offset' bytes le e =
    elim (Bool-cases (ltb (length decoded) payload_len)) [
      | inl more ↦
          let ((d1, o1), first, rest) =
            >>=-eq-ok (decode_block encoded payload_len decoded offset) _
              (rw (more, decode_loop) at e) in
          let b = decode_block-Block encoded decoded d1 payload_len offset o1 bytes first in
          Blocks-round encoded decoded d1 decoded' payload_len offset o1 offset' (ltb→lt _ _ more) b
            (decode_loop-Blocks fuel encoded d1 decoded' payload_len o1 offset' bytes
              (omega (arith, Block-length b)) rest)
      | inr full ↦
          Blocks-done encoded decoded decoded' payload_len offset offset'
            (omega (arith, ltb→le _ _ full)) (rw (full, decode_loop) at e)
    ]

-- On bytes, a successful decoding returns as many bytes as asked for, and its input is their encoding.
pub decode_crc_blocks-eq-ok :
    (encoded bytes : List ℕ) (payload_len : ℕ)
    → IsBytes encoded
    → decode_crc_blocks encoded payload_len ≡ ok bytes
    → (encoded ≡ encode_crc_blocks bytes []) × (length bytes ≡ payload_len)
unfolding decode_crc_blocks
decode_crc_blocks-eq-ok encoded bytes payload_len h e =
    let ((d, o), looped, e1) = >>=-eq-ok (decode_loop payload_len encoded payload_len [] 0) _ e in
    let (u, at_end, e2) = >>=-eq-ok (guard (o == length encoded) _) _ e1 in
    let b = decode_loop-Blocks payload_len encoded [] d payload_len 0 o h (omega arith) looped in
    let same : d ≡ bytes = cc in
    let ended : drop o encoded ≡ [] =
      drop_all o encoded (omega (arith, ==→eq o _ (guard-eq-ok _ _ at_end))) in
    (
      b.framed
          ∙ ap₂ (λ (s t : List ℕ). encode_crc_blocks s [] ++ t) (sym b.gained ∙ same) ended
          ∙ append-nil _,
      sym (ap (length {A = ℕ}) same) ∙ b.sized,
    )

pub verify_crc-ne-stuck : (block crc : List ℕ) → verify_crc block crc ≢ stuck
unfolding verify_crc
verify_crc-ne-stuck block crc p = ground arith

decode_block-ne-stuck :
    (encoded decoded : List ℕ) (payload_len offset : ℕ)
    → decode_block encoded payload_len decoded offset ≢ stuck
unfolding decode_block
decode_block-ne-stuck encoded decoded payload_len offset p = ground arith

decode_loop-ne-stuck :
    (fuel : ℕ) (encoded decoded : List ℕ) (payload_len offset : ℕ)
    → IsBytes encoded
    → payload_len ≤ length decoded + fuel
    → decode_loop fuel encoded payload_len decoded offset ≢ stuck
unfolding decode_loop
decode_loop-ne-stuck zero encoded decoded payload_len offset h le = ground arith
decode_loop-ne-stuck (suc fuel) encoded decoded payload_len offset h le =
    elim (Bool-cases (ltb (length decoded) payload_len)) [
      | inl more ↦
          rw (more, decode_loop)
            (>>=-ne-stuck (decode_block encoded payload_len decoded offset) _
              (decode_block-ne-stuck encoded decoded payload_len offset)
              (λ (d1, o1) first. decode_loop-ne-stuck fuel encoded d1 payload_len o1 h (
                omega (
                  arith,
                  ltb→lt _ _ more,
                  Block-length
                      (decode_block-Block encoded decoded d1 payload_len offset o1 h first),
                ))))
      | inr full ↦ rw (full, decode_loop) (λ e. cc)
    ]

-- The loop of `decode_crc_blocks` ends on every byte string, for every length asked for.
pub decode_crc_blocks-ne-stuck :
    (encoded : List ℕ) (payload_len : ℕ)
    → IsBytes encoded
    → decode_crc_blocks encoded payload_len ≢ stuck
unfolding decode_crc_blocks
decode_crc_blocks-ne-stuck encoded payload_len h =
    >>=-ne-stuck (decode_loop payload_len encoded payload_len [] 0) _
      (decode_loop-ne-stuck payload_len encoded [] payload_len 0 h (omega arith))
      (λ (d, o) _.
        >>=-ne-stuck (guard (o == length encoded) (invalid_length o (length encoded))) (λ _. ok d)
          (guard-ne-stuck (o == length encoded) _) (λ u hu. ok-ne-stuck d))
