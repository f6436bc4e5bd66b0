-- ===== src/Link/LinkFrame/Canonical.antt =====
-- The inputs that `decode` accepts are the encodings of valid frames.
use dnp3_rust_lib.Prelude.{
  ℕ, ◌+◌, ◌-◌, ◌%◌, ◌≤◌, ◌≡◌, ◌≢◌, inl, inr, sym, ap, ◌∙◌, true, not, ◌&&◌, List, [], ◌∷◌, ◌++◌,
  length, take, drop, get_or, arith, leb, ltb, ◌==◌, All-drop, All-take,
}
use mathlib.Core.Path.{ap₂, subst}
use dnp3_rust_lib.Prelude.Bytes.{
  IsByte, IsBytes, to_le_bytes, from_le_bytes, to_le_bytes-from_le_bytes, bytes_eq, bytes_eq→eq,
}
use dnp3_rust_lib.Core.Error.{
  Result, Result-cases, ok, stuck, guard, guard-eq-ok, guard-ne-stuck, >>=-eq-ok, >>=-ne-stuck,
  ok-ne-stuck, invalid_length, unexpected_eof, invalid_start_bytes,
}
use dnp3_rust_lib.Core.Reader
use dnp3_rust_lib.Core.Reader.{Reader, read_u8, lift}
use dnp3_rust_lib.Core.Reader.Progress.{
  Progress, Progress-bind, Progress-map, Progress-lift, Progress-read_u8, Progress-ne-stuck,
}
use dnp3_rust_lib.Core.Crc.{verify_crc, encode_crc_blocks, decode_crc_blocks}
use dnp3_rust_lib.Core.Crc.Blocks.{crc_bytes}
use dnp3_rust_lib.Core.Crc.Exact.{
  verify_crc-eq-ok, verify_crc-ne-stuck, decode_crc_blocks-eq-ok, decode_crc_blocks-ne-stuck,
}
use dnp3_rust_lib.Core.Address
use dnp3_rust_lib.Core.Address.{Address}
use dnp3_rust_lib.Link.ControlField
use dnp3_rust_lib.Link.ControlField.{ControlField}
use dnp3_rust_lib.Link.ControlField.Codes
use dnp3_rust_lib.Link.LinkFrame.{
  LinkFrame, start_bytes, encode, encode_header, decode, decode_fields, encoded_payload_len,
}
use dnp3_rust_lib.Link.LinkFrame.RoundTrip.{IsValid, encode_lem}

-- The five bytes that `decode_fields` reads are those that `encode_header` writes.
record Fields (b d0 d1 s0 s1 : ℕ) (c : ControlField) (d s : Address) : Type 0 where
  control : ControlField.encode c ≡ b
  destination : to_le_bytes 2 d.value ≡ d0 ∷ d1 ∷ []
  source : to_le_bytes 2 s.value ≡ s0 ∷ s1 ∷ []
  destination_valid : Address.IsValid d
  source_valid : Address.IsValid s

decode_fields-Fields :
    (b d0 d1 s0 s1 : ℕ) (c : ControlField) (d s : Address) (r : Reader)
    → IsBytes (b ∷ d0 ∷ d1 ∷ s0 ∷ s1 ∷ [])
    → decode_fields (Reader.new (b ∷ d0 ∷ d1 ∷ s0 ∷ s1 ∷ [])) ≡ ok ((c, d, s), r)
    → Fields b d0 d1 s0 s1 c d s
unfolding decode_fields Reader.new Address.decode Reader.read_u8 Reader.remaining
decode_fields-Fields b d0 d1 s0 s1 c d s r h e = elim (Result-cases (ControlField.decode b)) [
  | inl (c', hc) ↦
      let read : ◌≡◌ {A = Result ((ControlField × Address × Address) × Reader)}
          (ok ((c', dest, src), record { input = b ∷ d0 ∷ d1 ∷ s0 ∷ s1 ∷ []; cursor = 5 }))
          (ok ((c, d, s), r)) =
        rw (hc, decode_fields) at e in
      let same_c : c ≡ c' = cc in
      let same_d : d ≡ dest = cc in
      let same_s : s ≡ src = cc in
      record {
        control = ap ControlField.encode same_c ∙ Codes.encode-decode_control b c' h.0 hc;
        destination =
            ap (λ (a : Address). to_le_bytes 2 a.value) same_d
            ∙ to_le_bytes-from_le_bytes (d0 ∷ d1 ∷ []) (h.1.0, (h.1.1.0, tt));
        source =
            ap (λ (a : Address). to_le_bytes 2 a.value) same_s
            ∙ to_le_bytes-from_le_bytes (s0 ∷ s1 ∷ []) (h.1.1.1.0, (h.1.1.1.1.0, tt));
        destination_valid = rw same_d (omega arith);
        source_valid = rw same_s (omega arith);
      }
  | inr (inl (x, hx)) ↦ absurd (cc (rw (hx, decode_fields) at e))
  | inr (inr hx) ↦ absurd (cc (rw (hx, decode_fields) at e))
]
  where
    dest : Address
    dest = Address.new (from_le_bytes (d0 ∷ d1 ∷ []))

    src : Address
    src = Address.new (from_le_bytes (s0 ∷ s1 ∷ []))

-- What `decode` has found when it accepts an input.
record Accepted (input : List ℕ) (frame : LinkFrame) : Type 0 where
  long : 10 ≤ length input
  start : take 2 input ≡ start_bytes
  len_low : 5 ≤ get_or input 2 0
  len_high : get_or input 2 0 ≤ 255
  crc : take 2 (drop 8 input) ≡ crc_bytes (take 8 input)
  reader : Reader
  fields :
      decode_fields (Reader.new (take 5 (drop 3 input)))
      ≡ ok ((frame.control, frame.destination, frame.source), reader)
  blocks : drop 10 input ≡ encode_crc_blocks frame.payload []
  sized : length frame.payload ≡ get_or input 2 0 - 5

both_bounds : (n : ℕ) → (leb 5 n && leb n 255) ≡ true → (5 ≤ n) × (n ≤ 255)
both_bounds n h = ground arith

long_enough : (n : ℕ) → not (ltb n 10) ≡ true → 10 ≤ n
long_enough n h = ground arith

decode-Accepted :
    (input : List ℕ) (frame : LinkFrame)
    → IsBytes input
    → decode input ≡ ok frame
    → Accepted input frame
unfolding decode
decode-Accepted input frame h e =
    let n = get_or input 2 0 in
    let (u1, g1, e1) = >>=-eq-ok (guard (not (ltb (length input) 10)) unexpected_eof) _ e in
    let (u2, g2, e2) =
      >>=-eq-ok (guard (bytes_eq (take 2 input) start_bytes) invalid_start_bytes) _ e1 in
    let (u3, g3, e3) = >>=-eq-ok (guard (leb 5 n && leb n 255) (invalid_length 5 n)) _ e2 in
    let (u4, g4, e4) = >>=-eq-ok (verify_crc (take 8 input) (take 2 (drop 8 input))) _ e3 in
    let (u5, g5, e5) =
      >>=-eq-ok
        (guard (length input == 10 + encoded_payload_len (n - 5))
          (invalid_length (10 + encoded_payload_len (n - 5)) (length input)))
        _ e4 in
    let (((c, d, s), r), g6, e6) =
      >>=-eq-ok (decode_fields (Reader.new (take 5 (drop 3 input)))) _ e5 in
    let (payload, g7, e7) = >>=-eq-ok (decode_crc_blocks (drop 10 input) (n - 5)) _ e6 in
    let (framed, sized) =
      decode_crc_blocks-eq-ok (drop 10 input) payload (n - 5) (All-drop IsByte 10 input h) g7 in
    let found : LinkFrame = record {
      control = c;
      destination = d;
      source = s;
      payload = payload;
    } in
    let same : found ≡ frame = cc in
    let (low, high) = both_bounds n (guard-eq-ok _ _ g3) in
    subst (Accepted input) same (record {
      long = long_enough (length input) (guard-eq-ok _ _ g1);
      start = bytes_eq→eq (take 2 input) start_bytes (guard-eq-ok _ _ g2);
      len_low = low;
      len_high = high;
      crc =
          verify_crc-eq-ok (take 8 input) (take 2 (drop 8 input))
            (All-take IsByte 2 (drop 8 input) (All-drop IsByte 8 input h)) g4;
      reader = r;
      fields = g6;
      blocks = framed;
      sized = sized;
    })

encode-Accepted :
    (i0 i1 i2 i3 i4 i5 i6 i7 i8 i9 : ℕ) (rest : List ℕ) (frame : LinkFrame)
    → IsBytes (i0 ∷ i1 ∷ i2 ∷ i3 ∷ i4 ∷ i5 ∷ i6 ∷ i7 ∷ i8 ∷ i9 ∷ rest)
    → Accepted (i0 ∷ i1 ∷ i2 ∷ i3 ∷ i4 ∷ i5 ∷ i6 ∷ i7 ∷ i8 ∷ i9 ∷ rest) frame
    → (encode frame ≡ i0 ∷ i1 ∷ i2 ∷ i3 ∷ i4 ∷ i5 ∷ i6 ∷ i7 ∷ i8 ∷ i9 ∷ rest) × IsValid frame
unfolding encode_header Address.encode
encode-Accepted i0 i1 i2 i3 i4 i5 i6 i7 i8 i9 rest frame h a = (
  encode_lem frame
      ∙ ap₂ (λ (s t : List ℕ). s ++ t) header
          (ap₂ (λ (s t : List ℕ). crc_bytes s ++ t) header (sym a.blocks)
            ∙ ap (λ (s : List ℕ). s ++ rest) (sym a.crc)),
  record {
    destination = f.destination_valid;
    source = f.source_valid;
    payload = omega (arith, a.sized, a.len_high, a.len_low);
  },
)
  where
    f : Fields i3 i4 i5 i6 i7 frame.control frame.destination frame.source
    f =
        decode_fields-Fields i3 i4 i5 i6 i7 frame.control frame.destination frame.source a.reader
          (All-take IsByte 5 (i3 ∷ i4 ∷ i5 ∷ i6 ∷ i7 ∷ i8 ∷ i9 ∷ rest) h.1.1.1) a.fields

    len : (5 + length frame.payload) % 256 ≡ i2
    len = omega (arith, a.sized, a.len_high, a.len_low)

    header : encode_header frame ≡ i0 ∷ i1 ∷ i2 ∷ i3 ∷ i4 ∷ i5 ∷ i6 ∷ i7 ∷ []
    header = cc (len, f.control, f.destination, f.source, a.start)

-- A byte string that decodes to a frame is the encoding of that frame, byte for byte, and the frame is
-- valid: its addresses are u16s and its payload has at most 250 bytes.
pub encode-decode_frame :
    (input : List ℕ) (frame : LinkFrame)
    → IsBytes input
    → decode input ≡ ok frame
    → (encode frame ≡ input) × IsValid frame
encode-decode_frame (i0 ∷ i1 ∷ i2 ∷ i3 ∷ i4 ∷ i5 ∷ i6 ∷ i7 ∷ i8 ∷ i9 ∷ rest) frame h e =
    encode-Accepted i0 i1 i2 i3 i4 i5 i6 i7 i8 i9 rest frame h (decode-Accepted _ frame h e)
encode-decode_frame short frame h e =
    let a : Accepted short frame = decode-Accepted short frame h e in absurd (omega (arith, a.long))

decode-control-ne-stuck : (b : ℕ) → ControlField.decode b ≢ stuck
unfolding ControlField.decode
decode-control-ne-stuck b p = ground arith

Progress-fields : Progress 5 decode_fields
unfolding decode_fields
Progress-fields = Progress-bind 1 4 read_u8 _ Progress-read_u8 λ b.
    Progress-bind 0 4 (lift (ControlField.decode b)) _ (Progress-lift _ (decode-control-ne-stuck b))
      λ c.
        Progress-bind 2 2 Address.decode _ Address.Progress-decode
          λ d. Progress-map 2 Address.decode _ Address.Progress-decode

decode_fields-ne-stuck : (r : Reader) → decode_fields r ≢ stuck
decode_fields-ne-stuck = Progress-ne-stuck 5 decode_fields Progress-fields

-- Decoding ends on every byte string, with a frame or an error.
pub decode-ne-stuck_frame : (input : List ℕ) → IsBytes input → decode input ≢ stuck
unfolding decode
decode-ne-stuck_frame input h =
    let n = get_or input 2 0 in
    >>=-ne-stuck (guard (not (ltb (length input) 10)) unexpected_eof) _ (guard-ne-stuck _ _)
      λ u1 g1.
        >>=-ne-stuck (guard (bytes_eq (take 2 input) start_bytes) invalid_start_bytes) _
          (guard-ne-stuck _ _)
          λ u2 g2.
            >>=-ne-stuck (guard (leb 5 n && leb n 255) (invalid_length 5 n)) _ (guard-ne-stuck _ _)
              λ u3 g3.
                >>=-ne-stuck (verify_crc (take 8 input) (take 2 (drop 8 input))) _
                  (verify_crc-ne-stuck _ _)
                  λ u4 g4.
                    >>=-ne-stuck
                      (guard (length input == 10 + encoded_payload_len (n - 5))
                        (invalid_length (10 + encoded_payload_len (n - 5)) (length input)))
                      _ (guard-ne-stuck _ _)
                      λ u5 g5.
                        >>=-ne-stuck (decode_fields (Reader.new (take 5 (drop 3 input)))) _
                          (decode_fields-ne-stuck _)
                          λ u6 g6.
                            >>=-ne-stuck (decode_crc_blocks (drop 10 input) (n - 5)) _
                              (decode_crc_blocks-ne-stuck (drop 10 input) (n - 5)
                                (All-drop IsByte 10 input h))
                              λ u7 g7. ok-ne-stuck _
