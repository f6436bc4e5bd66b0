-- ===== src/Core/Crc/Accepts.antt =====
-- `decode_crc_blocks` accepts what `encode_crc_blocks` writes.
use dnp3_rust_lib.Prelude.{
  ℕ, zero, suc, ◌+◌, ◌-◌, ◌≤◌, ◌<◌, ◌≡◌, refl, sym, ap, ◌∙◌, min, List, [], ◌∷◌, ◌++◌, append_assoc,
  append-nil, length, take, drop, length-append, length-take, length-drop, take-append, drop-append,
  take-append-drop, drop-drop, ==_refl, lt→ltb, le→ltb, arith, leb, true,
}
use mathlib.Core.Path.{ap₂}
use dnp3_rust_lib.Core.Error.{ok}
use dnp3_rust_lib.Core.Crc.{encode_crc_blocks, decode_block, decode_loop, decode_crc_blocks}
use dnp3_rust_lib.Core.Crc.Blocks.{
  crc_bytes, verify_crc_own, encode_crc_blocks_step, encode_crc_blocks-nil,
}

-- One round takes one block with its CRC.
module _ (pre block more : List ℕ) where
  abbrev framed : List ℕ
  framed = pre ++ (block ++ (crc_bytes block ++ more))

  framed-room : leb (length block + 2) (length framed - length pre) ≡ true
  framed-room = ground (
    arith,
    length-append pre (block ++ (crc_bytes block ++ more)),
    length-append block (crc_bytes block ++ more),
  )

  framed-block : take (length block) (drop (length pre) framed) ≡ block
  framed-block =
      ap (take (length block)) (drop-append (length pre) pre _ refl)
      ∙ take-append (length block) block _ refl

  framed-crc : take 2 (drop (length pre + length block) framed) ≡ crc_bytes block
  framed-crc = ap (take 2) (
      sym (drop-drop (length block) (length pre) framed)
      ∙ ap (drop (length block)) (drop-append (length pre) pre _ refl)
      ∙ drop-append (length block) block _ refl)

  pub decode_block_own :
      (decoded : List ℕ) (payload_len : ℕ)
      → min (payload_len - length decoded) 16 ≡ length block
      → decode_block framed payload_len decoded (length pre)
        ≡ ok (decoded ++ block, length pre + (length block + 2))
  unfolding decode_block
  decode_block_own decoded payload_len h =
      rw (h, framed-room, framed-block, framed-crc, verify_crc_own block)

decode_loop_done :
    (fuel : ℕ) (encoded decoded : List ℕ) (payload_len offset : ℕ)
    → payload_len ≤ length decoded
    → decode_loop fuel encoded payload_len decoded offset ≡ ok (decoded, offset)
unfolding decode_loop
decode_loop_done zero encoded decoded payload_len offset h = rw (le→ltb _ _ h, decode_loop)
decode_loop_done (suc fuel) encoded decoded payload_len offset h = rw (le→ltb _ _ h, decode_loop)

pub decode_loop_step :
    (fuel : ℕ) (encoded decoded decoded' : List ℕ) (payload_len offset offset' : ℕ)
    → length decoded < payload_len
    → decode_block encoded payload_len decoded offset ≡ ok (decoded', offset')
    → decode_loop (suc fuel) encoded payload_len decoded offset
      ≡ decode_loop fuel encoded payload_len decoded' offset'
unfolding decode_loop
decode_loop_step fuel encoded decoded decoded' payload_len offset offset' h e =
    rw (lt→ltb _ _ h, decode_loop) (rw (e, decode_loop))

-- What is left to decode is `rest`, and its blocks are the end of the input.
pub decode_loop-encode :
    (fuel : ℕ) (encoded pre decoded rest : List ℕ) (payload_len offset : ℕ)
    → encoded ≡ pre ++ encode_crc_blocks rest []
    → payload_len ≡ length decoded + length rest
    → offset ≡ length pre
    → length rest ≤ fuel
    → decode_loop fuel encoded payload_len decoded offset ≡ ok (decoded ++ rest, length encoded)
decode_loop-encode fuel encoded pre decoded [] payload_len offset he hn ho hf =
    decode_loop_done fuel encoded decoded payload_len offset (omega arith)
    ∙ ap₂ (λ (d : List ℕ) (o : ℕ). ok (d, o)) (sym (append-nil decoded)) at_end
  where
    at_end : offset ≡ length encoded
    at_end = rw (he, encode_crc_blocks-nil, append-nil) ho
decode_loop-encode zero encoded pre decoded (x ∷ xs) payload_len offset he hn ho hf =
    absurd (omega arith)
decode_loop-encode (suc fuel) encoded pre decoded (x ∷ xs) payload_len offset he hn ho hf =
    decode_loop_step fuel encoded decoded (decoded ++ block) payload_len offset
      (length pre + (length block + 2)) (omega arith) round
    ∙ decode_loop-encode fuel encoded (pre ++ (block ++ crc_bytes block)) (decoded ++ block)
        (drop 16 (x ∷ xs)) payload_len (length pre + (length block + 2)) layout
        (omega (arith, length-append decoded block, cut, cut')) behind (omega (arith, cut'))
    ∙ ap (λ (d : List ℕ). ok (d, length encoded))
        (append_assoc decoded block (drop 16 (x ∷ xs))
          ∙ ap (λ (t : List ℕ). decoded ++ t) (take-append-drop 16 (x ∷ xs)))
  where
    block : List ℕ
    block = take 16 (x ∷ xs)

    tail : List ℕ
    tail = encode_crc_blocks (drop 16 (x ∷ xs)) []

    cut : length block ≡ min 16 (length (x ∷ xs))
    cut = length-take 16 (x ∷ xs)

    cut' : length (drop 16 (x ∷ xs)) ≡ length (x ∷ xs) - 16
    cut' = length-drop 16 (x ∷ xs)

    whole : encoded ≡ pre ++ (block ++ (crc_bytes block ++ tail))
    whole = he ∙ ap (λ (t : List ℕ). pre ++ t) (encode_crc_blocks_step (x ∷ xs) (omega arith))

    round :
        decode_block encoded payload_len decoded offset
        ≡ ok (decoded ++ block, length pre + (length block + 2))
    round =
        rw (whole, ho) (decode_block_own pre block tail decoded payload_len (omega (arith, cut)))

    layout : encoded ≡ (pre ++ (block ++ crc_bytes block)) ++ tail
    layout =
        whole
        ∙ ap (λ (t : List ℕ). pre ++ t) (sym (append_assoc block (crc_bytes block) tail))
        ∙ sym (append_assoc pre (block ++ crc_bytes block) tail)

    behind : length pre + (length block + 2) ≡ length (pre ++ (block ++ crc_bytes block))
    behind =
        omega (
          arith,
          length-append pre (block ++ crc_bytes block),
          length-append block (crc_bytes block),
        )

-- Decoding with the right length gives back every byte string that was encoded.
pub decode_crc_blocks-encode_crc_blocks :
    (bytes : List ℕ) → decode_crc_blocks (encode_crc_blocks bytes []) (length bytes) ≡ ok bytes
unfolding decode_crc_blocks
decode_crc_blocks-encode_crc_blocks bytes = rw (
  decode_loop-encode (length bytes) (encode_crc_blocks bytes []) [] [] bytes (length bytes) 0 refl
      (omega arith) refl (omega arith),
  ==_refl (length (encode_crc_blocks bytes [])),
)
