-- ===== src/App/AppControl.antt =====
-- `AppControl` of crates/dnp3-app/src/lib.rs.
pub mod Codes
use dnp3_rust_lib.Prelude.{ℕ, Bool, true, false, bit_and, bit_or, ◌!=◌, if◌then◌else◌}

pub record AppControl : Type 0 where
  pub fir : Bool
  pub fin : Bool
  pub con : Bool
  pub uns : Bool
  pub sequence : ℕ

unfoldable pub new : Bool → Bool → Bool → Bool → ℕ → AppControl
new fir fin con uns sequence = record {
  fir = fir;
  fin = fin;
  con = con;
  uns = uns;
  sequence = bit_and sequence 0x0f;
}

unfoldable pub single : ℕ → AppControl
unfolding new
single sequence = new true true false false sequence

unfoldable pub encode : AppControl → ℕ
encode c =
    bit_or
      (bit_or
        (bit_or (bit_or (if c.fir then 0x80 else 0) (if c.fin then 0x40 else 0))
          (if c.con then 0x20 else 0))
        (if c.uns then 0x10 else 0))
      (bit_and c.sequence 0x0f)

unfoldable pub decode : ℕ → AppControl
decode value = record {
  fir = bit_and value 0x80 != 0;
  fin = bit_and value 0x40 != 0;
  con = bit_and value 0x20 != 0;
  uns = bit_and value 0x10 != 0;
  sequence = bit_and value 0x0f;
}
