-- ===== src/Link/LinkFrame/Lengths.antt =====
-- `encoded_payload_len` is the length of the payload's CRC blocks.
use dnp3_rust_lib.Prelude.{
  ℕ, zero, suc, ◌+◌, ◌-◌, min, ◌≤◌, ◌<◌, ◌≡◌, refl, ap, ◌∙◌, List, [], ◌∷◌, ◌++◌, length, take,
  drop, length-append, length-take, length-drop, arith,
}
use mathlib.Core.Path.{ap₂}
use dnp3_rust_lib.Core.Crc.{encode_crc_blocks}
use dnp3_rust_lib.Core.Crc.Blocks.{crc_bytes, encode_crc_blocks_step, encode_crc_blocks-nil}
use dnp3_rust_lib.Link.LinkFrame.{encoded_payload_len}

encoded_payload_len_step :
    (n : ℕ) → 0 < n → min 16 n + (2 + encoded_payload_len (n - 16)) ≡ encoded_payload_len n
unfolding encoded_payload_len
encoded_payload_len_step n h = ground arith

length-step :
    (bytes : List ℕ)
    → 0 < length bytes
    → length (encode_crc_blocks bytes [])
      ≡ min 16 (length bytes) + (2 + length (encode_crc_blocks (drop 16 bytes) []))
length-step bytes h =
    ap (length {A = ℕ}) (encode_crc_blocks_step bytes h)
    ∙ length-append (take 16 bytes)
        (crc_bytes (take 16 bytes) ++ encode_crc_blocks (drop 16 bytes) [])
    ∙ ap₂ ◌+◌ (length-take 16 bytes) (omega arith)

blocks_length :
    (fuel : ℕ) (bytes : List ℕ)
    → length bytes ≤ fuel
    → length (encode_crc_blocks bytes []) ≡ encoded_payload_len (length bytes)
blocks_length fuel [] h =
    ap (length {A = ℕ}) encode_crc_blocks-nil ∙ unfold encoded_payload_len in refl
blocks_length zero (x ∷ xs) h = absurd (omega arith)
blocks_length (suc fuel) (x ∷ xs) h =
    length-step (x ∷ xs) (omega arith)
    ∙ ap (λ (t : ℕ). min 16 (length (x ∷ xs)) + (2 + t))
        (blocks_length fuel (drop 16 (x ∷ xs)) (omega (arith, length-drop 16 (x ∷ xs)))
          ∙ ap encoded_payload_len (length-drop 16 (x ∷ xs)))
    ∙ encoded_payload_len_step (length (x ∷ xs)) (omega arith)

-- The blocks of a payload take `encoded_payload_len` bytes.
pub length-encode_crc_blocks :
    (bytes : List ℕ) → length (encode_crc_blocks bytes []) ≡ encoded_payload_len (length bytes)
length-encode_crc_blocks bytes = blocks_length (length bytes) bytes (omega arith)
