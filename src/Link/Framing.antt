-- ===== src/Link/Framing.antt =====
-- Frames on a stream of bytes: what the `read_frame` of the TCP and the serial crate have in common.
use dnp3_rust_lib.Prelude.{
  ℕ, ◌+◌, ◌-◌, ◌≤◌, ◌≡◌, refl, sym, ap, ◌∙◌, Bool, not, true, false, List, [], ◌++◌, append_assoc,
  length, take, drop, get_or, take-append-drop, All-front, take-append, drop-append, length-append,
  ltb, le→ltb, arith, if◌then◌else◌,
}
use mathlib.Core.Path.{subst, ap₂}
use dnp3_rust_lib.Prelude.Bytes.{IsBytes, bytes_eq}
use dnp3_rust_lib.Core.Error
use dnp3_rust_lib.Core.Error.{ProtocolError, invalid_start_bytes, invalid_length}
use dnp3_rust_lib.Core.Fallible.{
  Fallible, ok, err, from_result, Action, ◌>>=◌, lift, >>=-of_ok, >>=-eq-ok, err-ne-ok, stuck-ne-ok,
  ok-injective,
}
use dnp3_rust_lib.Core.Address
use dnp3_rust_lib.Core.Crc.{encode_crc_blocks}
use dnp3_rust_lib.Core.Crc.Blocks.{crc_bytes}
use dnp3_rust_lib.Link.LinkFrame
use dnp3_rust_lib.Link.LinkFrame.{
  LinkFrame, start_bytes, encode, encode_header, encoded_payload_len,
}
use dnp3_rust_lib.Link.LinkFrame.Lengths.{length-encode_crc_blocks}
use dnp3_rust_lib.Link.LinkFrame.Canonical.{encode-decode_frame}
use dnp3_rust_lib.Link.LinkFrame.RoundTrip.{IsValid, encode_lem, decode-encode_frame}

unless-err :
    {S E : Type 0} (b : Bool) (e : E) (s s' : S) (f : LinkFrame)
    (otherwise : Fallible E LinkFrame × S)
    → (if b then (err e, s) else otherwise) ≡ (ok f, s')
    → otherwise ≡ (ok f, s')
unless-err true e s s' f otherwise h = absurd (err-ne-ok (ap (λ p. p.0) h))
unless-err false e s s' f otherwise h = h

taken_twice :
    (p fixed blocks p1 p2 : List ℕ) (n : ℕ)
    → fixed ≡ take 10 p
    → p1 ≡ drop 10 p
    → blocks ≡ take n p1
    → p2 ≡ drop n p1
    → p ≡ (fixed ++ blocks) ++ p2
taken_twice p fixed blocks p1 p2 n e1 d1 e2 d2 =
    sym (take-append-drop 10 p)
    ∙ ap₂ ◌++◌ (sym e1) (sym d1 ∙ sym (take-append-drop n p1) ∙ ap₂ ◌++◌ (sym e2) (sym d2))
    ∙ sym (append_assoc fixed blocks p2)

from_result-eq-ok :
    {E : Type 0} (wrap : ProtocolError → E) (x : Error.Result LinkFrame) {f : LinkFrame}
    → from_result wrap x ≡ ok f
    → x ≡ Error.ok f
from_result-eq-ok wrap (Error.ok g) h = ap Error.ok (ok-injective h)
from_result-eq-ok wrap (Error.err e) h = absurd (err-ne-ok h)
from_result-eq-ok wrap Error.stuck h = absurd (stuck-ne-ok h)

module _ {S E : Type 0} where
  -- A stream with the bytes that its far end sends. A read of at most as many is given their front, and
  -- a read that succeeds has taken it: the documented behaviour of `read_exact`.
  pub record Buffered (read : ℕ → Action S E (List ℕ)) : Type 0 where
    pub pending : S → List ℕ
    pub gives :
        (n : ℕ) (s : S)
        → n ≤ length (pending s)
        → (s' : S) × (read n s ≡ (ok (take n (pending s)), s')) × (pending s' ≡ drop n (pending s))
    pub takes :
        (n : ℕ) (s s' : S) {bytes : List ℕ}
        → read n s ≡ (ok bytes, s')
        → (bytes ≡ take n (pending s)) × (pending s' ≡ drop n (pending s))

  module _ (wrap : ProtocolError → E) (read : ℕ → Action S E (List ℕ)) where
    abbrev decode_by : List ℕ → List ℕ → Action S E LinkFrame
    decode_by fixed rest = lift (from_result wrap (LinkFrame.decode (fixed ++ rest)))

    -- The end of `read_by`, from the length byte on.
    abbrev pub read_rest_by : List ℕ → Action S E LinkFrame
    read_rest_by fixed s =
        let length' = get_or fixed 2 0 in
        if ltb length' 5
        then (err (wrap (invalid_length 5 length')), s)
        else (read (encoded_payload_len (length' - 5)) >>= decode_by fixed) s

    -- Ten bytes, and then as many as their length byte says.
    abbrev checked_by : List ℕ → Action S E LinkFrame
    checked_by fixed s =
        if not (bytes_eq (take 2 fixed) start_bytes)
        then (err (wrap invalid_start_bytes), s)
        else read_rest_by fixed s

    abbrev pub read_by : Action S E LinkFrame
    read_by = read 10 >>= checked_by

    read_by-of_parts :
        (fixed blocks : List ℕ) (n : ℕ) (s s1 s2 : S) {f : LinkFrame}
        → read 10 s ≡ (ok fixed, s1)
        → take 2 fixed ≡ start_bytes
        → get_or fixed 2 0 ≡ 5 + n
        → read (encoded_payload_len n) s1 ≡ (ok blocks, s2)
        → LinkFrame.decode (fixed ++ blocks) ≡ Error.ok f
        → read_by s ≡ (ok f, s2)
    read_by-of_parts fixed blocks n s s1 s2 {f} first start len second decoded =
        >>=-of_ok (read 10) checked_by s first
        ∙ rw (start, len, le→ltb (5 + n) 5 (omega arith), minus)
            (>>=-of_ok (read (encoded_payload_len n)) (decode_by fixed) s1 second
              ∙ ap (λ x. (from_result wrap x, s2)) decoded)
      where
        minus : 5 + n - 5 ≡ n
        minus = omega arith

    module _ (buffered : Buffered read) where
      -- A frame at the front of what has been received is read, and nothing behind it is touched.
      pub read_by-encode :
          (f : LinkFrame) (s : S) (rest : List ℕ)
          → IsValid f
          → buffered.pending s ≡ encode f ++ rest
          → (s' : S) × (read_by s ≡ (ok f, s')) × (buffered.pending s' ≡ rest)
      unfolding encode_header Address.encode
      read_by-encode f s rest v h =
          let (s1, first, p1) =
            buffered.gives 10 s (
              omega
                (arith, ap (length {A = ℕ}) front, length-append fixed (blocks ++ rest), ten)) in
          let behind : buffered.pending s1 ≡ blocks ++ rest =
            p1 ∙ ap (drop 10) front ∙ drop-append 10 fixed (blocks ++ rest) refl in
          let (s2, second, p2) =
            buffered.gives (encoded_payload_len (length f.payload)) s1
              (omega (arith, ap (length {A = ℕ}) behind, long, length-append blocks rest)) in
          (
            s2,
            read_by-of_parts fixed blocks (length f.payload) s s1 s2
                (first ∙ λ i.
                  (ok ((ap (take 10) front ∙ take-append 10 fixed (blocks ++ rest) refl) i), s1))
                refl (omega arith)
                (second ∙ λ i. (
                  ok (
                      (ap (take (encoded_payload_len (length f.payload))) behind
                          ∙ take-append _ blocks rest long)
                        i),
                  s2,
                ))
                (ap LinkFrame.decode
                    (append_assoc header (crc_bytes header) blocks ∙ sym (encode_lem f))
                  ∙ decode-encode_frame f v),
            p2
                ∙ ap (drop (encoded_payload_len (length f.payload))) behind
                ∙ drop-append _ blocks rest long,
          )
        where
          header : List ℕ
          header = encode_header f

          fixed : List ℕ
          fixed = header ++ crc_bytes header

          blocks : List ℕ
          blocks = encode_crc_blocks f.payload []

          ten : length fixed ≡ 10
          ten = refl

          long : length blocks ≡ encoded_payload_len (length f.payload)
          long = length-encode_crc_blocks f.payload

          front : buffered.pending s ≡ fixed ++ (blocks ++ rest)
          front =
              h
              ∙ ap (λ t. t ++ rest)
                  (encode_lem f ∙ sym (append_assoc header (crc_bytes header) blocks))
              ∙ append_assoc fixed blocks rest

      -- A read that succeeds has taken the encoding of its frame, and no more.
      pub read_by_sound :
          (f : LinkFrame) (s s' : S)
          → IsBytes (buffered.pending s)
          → read_by s ≡ (ok f, s')
          → buffered.pending s ≡ encode f ++ buffered.pending s'
      read_by_sound f s s' hb h =
          let (fixed, s1, first, k) = >>=-eq-ok (read 10) checked_by s h in
          let k1 : read_rest_by fixed s1 ≡ (ok f, s') =
            unless-err (not (bytes_eq (take 2 fixed) start_bytes)) _ s1 s' f _ k in
          let k2 = unless-err (ltb (get_or fixed 2 0) 5) _ s1 s' f _ k1 in
          let (blocks, s2, second, k3) =
            >>=-eq-ok (read (encoded_payload_len (get_or fixed 2 0 - 5))) (decode_by fixed) s1 k2 in
          let (e1, p1) = buffered.takes 10 s s1 first in
          let (e2, p2) = buffered.takes _ s1 s2 second in
          let stop : s2 ≡ s' = ap (λ p. p.1) k3 in
          let whole : buffered.pending s ≡ (fixed ++ blocks) ++ buffered.pending s' =
            taken_twice _ fixed blocks _ _ _ e1 p1 e2 (ap buffered.pending (sym stop) ∙ p2) in
          let decoded : LinkFrame.decode (fixed ++ blocks) ≡ Error.ok f =
            from_result-eq-ok wrap (LinkFrame.decode (fixed ++ blocks)) (ap (λ p. p.0) k3) in
          let bytes : IsBytes (fixed ++ blocks) =
            All-front _ (fixed ++ blocks) (buffered.pending s') (subst IsBytes whole hb) in
          whole
          ∙ ap (λ t. t ++ buffered.pending s')
              (sym (encode-decode_frame (fixed ++ blocks) f bytes decoded).0)
