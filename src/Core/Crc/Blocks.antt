-- ===== src/Core/Crc/Blocks.antt =====
-- The layout that `encode_crc_blocks` writes.
use dnp3_rust_lib.Prelude.{
  ℕ, ◌<◌, ◌^◌, ◌≡◌, refl, sym, ap, ◌∙◌, List, [], ◌∷◌, ◌++◌, append_assoc, append-nil, length, take,
  drop, ◌≤◌, ◌⊎◌, inl, inr, length-append, take-append, drop-append, take_all, drop_all, ==_refl,
  arith,
}
use dnp3_rust_lib.Prelude.Bytes.{to_le_bytes, from_le_bytes-to_le_bytes}
use dnp3_rust_lib.Prelude.Chunks.{chunks, chunks_step}
use dnp3_rust_lib.Core.Error.{ok}
use dnp3_rust_lib.Core.Crc.{crc16, append_crc, verify_crc, encode_chunks, encode_crc_blocks}

pub crc16-lt : (block : List ℕ) → crc16 block < 2 ^ 16
unfolding crc16
crc16-lt block = omega arith

-- The bytes that follow a block.
abbrev pub crc_bytes : List ℕ → List ℕ
crc_bytes block = to_le_bytes 2 (crc16 block)

-- A block passes with its own CRC.
pub verify_crc_own : (block : List ℕ) → verify_crc block (crc_bytes block) ≡ ok tt
unfolding verify_crc
verify_crc_own block =
    rw (from_le_bytes-to_le_bytes 2 (crc16 block) (crc16-lt block), ==_refl (crc16 block))

append_crc-append : (c out : List ℕ) → append_crc c (out ++ c) ≡ out ++ append_crc c c
unfolding append_crc
append_crc-append c out = append_assoc out c _

encode_chunks-append :
    (cs : List (List ℕ)) (out : List ℕ) → encode_chunks cs out ≡ out ++ encode_chunks cs []
unfolding encode_chunks
encode_chunks-append [] out = sym (append-nil out)
encode_chunks-append (c ∷ cs) out =
    encode_chunks-append cs (append_crc c (out ++ c))
    ∙ ap (λ (t : List ℕ). t ++ encode_chunks cs []) (append_crc-append c out)
    ∙ append_assoc out (append_crc c c) (encode_chunks cs [])
    ∙ ap (λ (t : List ℕ). out ++ t) (sym (encode_chunks-append cs (append_crc c c)))

pub encode_crc_blocks-append :
    (bytes out : List ℕ) → encode_crc_blocks bytes out ≡ out ++ encode_crc_blocks bytes []
unfolding encode_crc_blocks
encode_crc_blocks-append bytes out = encode_chunks-append (chunks 16 bytes) out

-- The first block with its CRC, and the blocks of what is left.
pub encode_crc_blocks_step :
    (bytes : List ℕ)
    → 0 < length bytes
    → encode_crc_blocks bytes []
      ≡ take 16 bytes ++ (crc_bytes (take 16 bytes) ++ encode_crc_blocks (drop 16 bytes) [])
unfolding encode_crc_blocks encode_chunks
encode_crc_blocks_step bytes h =
    ap (λ (cs : List (List ℕ)). encode_chunks cs []) (chunks_step 16 bytes (omega arith) h)
    ∙ encode_chunks-append (chunks 16 (drop 16 bytes)) _
    ∙ append_assoc (take 16 bytes) (crc_bytes (take 16 bytes))
        (encode_crc_blocks (drop 16 bytes) [])

pub encode_crc_blocks-nil : encode_crc_blocks [] [] ≡ []
unfolding encode_crc_blocks encode_chunks chunks
encode_crc_blocks-nil = refl

eq_nil_of_length : (xs : List ℕ) → length xs ≡ 0 → xs ≡ []
eq_nil_of_length [] h = refl
eq_nil_of_length (x ∷ xs) h = absurd (omega arith)

-- A full block, or a last block, stands in front of the blocks of the rest.
pub encode_crc_blocks_first :
    (block rest : List ℕ)
    → 0 < length block
    → length block ≤ 16
    → (length block ≡ 16) ⊎ (length rest ≡ 0)
    → encode_crc_blocks (block ++ rest) [] ≡ block ++ (crc_bytes block ++ encode_crc_blocks rest [])
encode_crc_blocks_first block rest pos le (inl full) =
    encode_crc_blocks_step (block ++ rest) (omega (arith, length-append block rest))
    ∙ rw (take-append 16 block rest full, drop-append 16 block rest full)
encode_crc_blocks_first block rest pos le (inr last) =
    rw (eq_nil_of_length rest last, append-nil)
      (encode_crc_blocks_step block pos ∙ rw (take_all 16 block le, drop_all 16 block le))
