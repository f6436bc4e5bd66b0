-- ===== src/Prelude/Masks.antt =====
-- `&` and `|` on one byte as arithmetic; each is a table of 256 entries.
use Prim.Native.Nat.{ℕ, ◌+◌, ◌*◌, ◌/◌, ◌%◌, ◌<◌, bit_and, bit_or}
use mathlib.Core.Path.{◌≡◌, refl, ap₂, ◌∙◌}
use native.Mathlib.Omega.{arith}
use dnp3_rust_lib.Prelude.Tests.{◌==◌, ==→eq}
use dnp3_rust_lib.Prelude.Table.{all_below, all_below_sound}

pub and_80 : (b : ℕ) → b < 256 → bit_and b 0x80 ≡ b / 128 * 128
unfolding all_below
and_80 b h = ==→eq _ _ (all_below_sound 256 (λ b. bit_and b 0x80 == b / 128 * 128) b refl h)

pub and_40 : (b : ℕ) → b < 256 → bit_and b 0x40 ≡ b / 64 % 2 * 64
unfolding all_below
and_40 b h = ==→eq _ _ (all_below_sound 256 (λ b. bit_and b 0x40 == b / 64 % 2 * 64) b refl h)

pub and_20 : (b : ℕ) → b < 256 → bit_and b 0x20 ≡ b / 32 % 2 * 32
unfolding all_below
and_20 b h = ==→eq _ _ (all_below_sound 256 (λ b. bit_and b 0x20 == b / 32 % 2 * 32) b refl h)

pub and_10 : (b : ℕ) → b < 256 → bit_and b 0x10 ≡ b / 16 % 2 * 16
unfolding all_below
and_10 b h = ==→eq _ _ (all_below_sound 256 (λ b. bit_and b 0x10 == b / 16 % 2 * 16) b refl h)

pub and_0f : (b : ℕ) → b < 256 → bit_and b 0x0f ≡ b % 16
unfolding all_below
and_0f b h = ==→eq _ _ (all_below_sound 256 (λ b. bit_and b 0x0f == b % 16) b refl h)

pub and_3f : (b : ℕ) → b < 256 → bit_and b 0x3f ≡ b % 64
unfolding all_below
and_3f b h = ==→eq _ _ (all_below_sound 256 (λ b. bit_and b 0x3f == b % 64) b refl h)

-- Two fields that do not overlap add up.
pub or_nibble : (q l : ℕ) → q < 16 → l < 16 → bit_or (q * 16) l ≡ q * 16 + l
unfolding all_below
or_nibble q l hq hl =
    ap₂ bit_or (omega arith) (omega arith)
    ∙ ==→eq _ _ (
        all_below_sound 256 (λ b. bit_or (b / 16 * 16) (b % 16) == b) (q * 16 + l) refl
          (omega arith))

pub or_six : (q l : ℕ) → q < 4 → l < 64 → bit_or (q * 64) l ≡ q * 64 + l
unfolding all_below
or_six q l hq hl =
    ap₂ bit_or (omega arith) (omega arith)
    ∙ ==→eq _ _ (
        all_below_sound 256 (λ b. bit_or (b / 64 * 64) (b % 64) == b) (q * 64 + l) refl
          (omega arith))
