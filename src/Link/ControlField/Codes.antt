-- ===== src/Link/ControlField/Codes.antt =====
-- The control byte and the control field determine one another.
use dnp3_rust_lib.Prelude.{ℕ, ◌<◌, ◌≡◌, refl, Bool, true, arith, ◌==◌, ==→eq}
use dnp3_rust_lib.Prelude.Bytes.{IsByte}
use dnp3_rust_lib.Prelude.Table.{all_below, all_below_sound}
use dnp3_rust_lib.Core.Error.{ok, err, stuck}
use dnp3_rust_lib.Link.ControlField.{
  Direction, PrimaryFunction, SecondaryFunction, LinkFunction, primary, secondary, ControlField,
  encode, decode,
}

decode-encode_fields :
    (f : LinkFunction) (d : Direction) (fcb fcv : Bool)
    → decode (encode (record { direction = d; fcb = fcb; fcv = fcv; function = f }))
      ≡ ok (record { direction = d; fcb = fcb; fcv = fcv; function = f })
unfolding encode decode
decode-encode_fields (primary PrimaryFunction.reset_link_states) d fcb fcv = ground arith
decode-encode_fields (primary PrimaryFunction.reset_user_process) d fcb fcv = ground arith
decode-encode_fields (primary f) d fcb fcv = ground arith
decode-encode_fields (secondary SecondaryFunction.ack) d fcb fcv = ground arith
decode-encode_fields (secondary f) d fcb fcv = ground arith

-- `decode` reads back every control field that `encode` wrote.
pub decode-encode_control : (c : ControlField) → decode (encode c) ≡ ok c
decode-encode_control c = decode-encode_fields c.function c.direction c.fcb c.fcv

abbrev reencodes : ℕ → Bool
reencodes value = elim (decode value) [ ok c ↦ encode c == value | err e ↦ true | stuck ↦ true ]

reencodes_table : all_below 256 reencodes ≡ true
unfolding all_below encode decode
reencodes_table = refl

-- A byte that `decode` accepts is the encoding of what it returns.
pub encode-decode_control :
    (value : ℕ) (c : ControlField) → value < 256 → decode value ≡ ok c → encode c ≡ value
encode-decode_control value c h e =
    ==→eq _ _ (rw (e, reencodes) at (all_below_sound 256 reencodes value reencodes_table h))

encode_fields-IsByte :
    (f : LinkFunction) (d : Direction) (fcb fcv : Bool)
    → IsByte (encode (record { direction = d; fcb = fcb; fcv = fcv; function = f }))
unfolding encode
encode_fields-IsByte (primary PrimaryFunction.reset_link_states) d fcb fcv = ground arith
encode_fields-IsByte (primary f) d fcb fcv = ground arith
encode_fields-IsByte (secondary SecondaryFunction.ack) d fcb fcv = ground arith
encode_fields-IsByte (secondary f) d fcb fcv = ground arith

-- The encoding is one byte.
pub encode-IsByte : (c : ControlField) → IsByte (encode c)
encode-IsByte c = encode_fields-IsByte c.function c.direction c.fcb c.fcv
