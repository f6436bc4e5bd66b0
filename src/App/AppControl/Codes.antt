-- ===== src/App/AppControl/Codes.antt =====
-- The control byte and the control field determine one another.
use dnp3_rust_lib.Prelude.{ℕ, ◌+◌, ◌*◌, ◌%◌, ◌<◌, ◌≡◌, Bool, bit_or, arith, if◌then◌else◌}
use dnp3_rust_lib.Prelude.Bytes.{IsByte}
use dnp3_rust_lib.Prelude.Masks.{and_80, and_40, and_20, and_10, and_0f, or_nibble}
use dnp3_rust_lib.App.AppControl.{AppControl, encode, decode}

-- The four flags as a number below 16.
abbrev flags : AppControl → ℕ
flags c =
    (if c.fir then 8 else 0)
    + (if c.fin then 4 else 0)
    + (if c.con then 2 else 0)
    + (if c.uns then 1 else 0)

flags-lt : (c : AppControl) → flags c < 16
flags-lt c = ground arith

or_flags :
    (fir fin con uns : Bool)
    → bit_or
        (bit_or
          (bit_or (if fir then 0x80 else 0) (if fin then 0x40 else 0))
          (if con then 0x20 else 0))
        (if uns then 0x10 else 0)
      ≡ ((if fir then 8 else 0)
          + (if fin then 4 else 0)
          + (if con then 2 else 0)
          + (if uns then 1 else 0))
        * 16
or_flags fir fin con uns = ground arith

pub encode_lem : (c : AppControl) → IsByte c.sequence → encode c ≡ flags c * 16 + c.sequence % 16
unfolding encode
encode_lem c h =
    rw (or_flags c.fir c.fin c.con c.uns, and_0f c.sequence h)
      (or_nibble (flags c) (c.sequence % 16) (flags-lt c) (omega arith))

-- A control field with a four-bit sequence number is read back from its byte.
pub decode-encode_app_control : (c : AppControl) → c.sequence < 16 → decode (encode c) ≡ c
unfolding decode
decode-encode_app_control c h = rw (encode_lem c (omega arith)) (
    ground (
      arith,
      and_80 (flags c * 16 + c.sequence % 16),
      and_40 (flags c * 16 + c.sequence % 16),
      and_20 (flags c * 16 + c.sequence % 16),
      and_10 (flags c * 16 + c.sequence % 16),
      and_0f (flags c * 16 + c.sequence % 16),
    ))

pub encode-IsByte : (c : AppControl) → IsByte c.sequence → IsByte (encode c)
encode-IsByte c h = omega (arith, encode_lem c h, flags-lt c)
