-- ===== src/App/ApplicationFragment/Terminates.antt =====
-- Reading a fragment always ends.
use dnp3_rust_lib.Prelude.{
  ℕ, zero, suc, ◌+◌, ◌≤◌, ◌<◌, ◌≡◌, refl, ◌≢◌, Bool, true, false, ◌&&◌, List, [], ◌∷◌, take, arith,
  ltb, leb, Bool-cases, inl, inr, lt→ltb,
}
use dnp3_rust_lib.Prelude.Bytes.{bytes_eq}
use dnp3_rust_lib.Core.Error.{Result, ok, err, stuck, >>=-ne-stuck}
use dnp3_rust_lib.Core.Reader
use dnp3_rust_lib.Core.Reader.{
  Reader, Parser, ◌>>=◌, remaining, unread, skip_padding_loop, skip_padding_zeros,
}
use dnp3_rust_lib.Core.Reader.Progress.{
  Passes, Progress, Progress-ne-stuck, Progress-bind, Total, Total-if, Total-bind, Total-lift,
  Total-read_u8, Total-pure, Total-read_u16_le,
}
use dnp3_rust_lib.App.FunctionCode
use dnp3_rust_lib.App.ObjectHeader
use dnp3_rust_lib.App.ObjectHeader.RoundTrip as HeaderRoundTrip
use dnp3_rust_lib.App.AppObject
use dnp3_rust_lib.App.AppObject.{AppObject}
use dnp3_rust_lib.App.AppObject.Progress as ObjectProgress
use dnp3_rust_lib.App.ApplicationFragment.{
  includes_iin, decode_round, decode_objects, decode_fragment, decode,
}

Passes-0-le {ℓ} :
    {A : Type ℓ} (r r' : Reader) (x : Result (A × Reader))
    → remaining r' ≤ remaining r
    → Passes 0 r' x
    → Passes 0 r x
Passes-0-le r r' (ok (a, r'')) h p = omega arith
Passes-0-le r r' (err e) h p = tt
Passes-0-le r r' stuck h p = p

and_left : (a b : Bool) → (a && b) ≡ true → a ≡ true
and_left true b h = refl
and_left false b h = h

passes_four :
    (r : Reader)
    → leb 4 (remaining r) ≡ true
    → remaining (record r { cursor = r.cursor + 4 }) + 4 ≤ remaining r
unfolding remaining
passes_four r h = ground arith

-- Each round of the padding passes four bytes, so that fuel above the count of unread bytes is enough.
Passes-skip_padding_loop :
    (fuel : ℕ) (r : Reader) → remaining r < fuel → Passes 0 r (skip_padding_loop fuel r)
unfolding skip_padding_loop
Passes-skip_padding_loop zero r h = absurd (omega arith)
Passes-skip_padding_loop (suc fuel) r h =
    elim (Bool-cases (leb 4 (remaining r) && bytes_eq (take 4 (unread r)) (0 ∷ 0 ∷ 0 ∷ 0 ∷ []))) [
      | inl more ↦
          let passed : remaining (record r { cursor = r.cursor + 4 }) + 4 ≤ remaining r =
            passes_four r (and_left _ _ more) in
          rw (more, skip_padding_loop)
            (Passes-0-le r (record r { cursor = r.cursor + 4 }) _ (omega arith)
              (Passes-skip_padding_loop fuel (record r { cursor = r.cursor + 4 }) (omega arith)))
      | inr stop ↦ rw (stop, skip_padding_loop) (omega arith)
    ]

Total-skip_padding_zeros : Total skip_padding_zeros
unfolding skip_padding_zeros
Total-skip_padding_zeros = record {
  passes = λ r. Passes-skip_padding_loop (suc (remaining r)) r (omega arith);
}

-- One header and one object: three bytes at least.
Progress-object : Progress 3 (ObjectHeader.decode >>= AppObject.decode)
Progress-object =
    Progress-bind 3 0 ObjectHeader.decode AppObject.decode HeaderRoundTrip.Progress-decode
      λ h. (ObjectProgress.Total-decode h).passes

-- What runs after `m` may use how far `m` has read.
Passes-after {ℓ κ} :
    {A : Type ℓ} {B : Type κ} (k : ℕ) (m : Parser A) (f : A → Parser B) (r : Reader)
    → Passes k r (m r)
    → ((a : A) (r' : Reader) → remaining r' + k ≤ remaining r → Passes 0 r' (f a r'))
    → Passes 0 r ((m >>= f) r)
Passes-after {A} {B} k m f r hm hf = go (m r) hm
  where
    go :
        (x : Result (A × Reader))
        → Passes k r x
        → Passes 0 r (elim x [ ok (a, r') ↦ f a r' | err e ↦ err e | stuck ↦ stuck ])
    go (ok (a, r')) p = Passes-0-le r r' (f a r') (omega arith) (hf a r' p)
    go (err e) p = tt
    go stuck p = p

Passes-decode_round :
    (later : Parser (List AppObject)) (r : Reader)
    → ((r' : Reader) → remaining r' + 3 ≤ remaining r → Passes 0 r' (later r'))
    → Passes 0 r (decode_round later r)
Passes-decode_round later r h = elim (Bool-cases (ltb (remaining r) 3)) [
  | inl short ↦ rw (short, decode_round) (omega arith)
  | inr long ↦
      rw (long, decode_round)
        (Passes-after 3 ObjectHeader.decode _ r (HeaderRoundTrip.Progress-decode r) λ header r1 h1.
          Passes-after 0 (AppObject.decode header) _ r1
            ((ObjectProgress.Total-decode header).passes r1)
            λ object r2 h2.
              Passes-after 0 later _ r2 (h r2 (omega arith)) λ rest r3 h3. omega arith)
]

-- Each round reads three bytes at least, so that fuel for each unread byte is enough.
Passes-decode_objects :
    (fuel : ℕ) (r : Reader) → remaining r ≤ fuel → Passes 0 r (decode_objects fuel r)
unfolding decode_objects
Passes-decode_objects zero r h =
    rw (lt→ltb (remaining r) 3 (omega arith), decode_objects) (omega arith)
Passes-decode_objects (suc fuel) r h = elim (Bool-cases (ltb (remaining r) 3)) [
  | inl short ↦ rw (short, decode_objects) (omega arith)
  | inr long ↦
      rw (long, decode_objects)
        (Passes-after 0 skip_padding_zeros (λ _. decode_round (decode_objects fuel)) r
          (Total-skip_padding_zeros.passes r)
          λ _ r1 h1.
            Passes-decode_round (decode_objects fuel) r1
              λ r2 h2. Passes-decode_objects fuel r2 (omega arith))
]

function_decode-ne-stuck : (code : ℕ) → FunctionCode.decode code ≢ stuck
unfolding FunctionCode.decode
function_decode-ne-stuck code e = ground arith

Total-fragment : Total decode_fragment
unfolding decode_fragment
Total-fragment = Total-bind Total-read_u8 λ control. Total-bind Total-read_u8 λ code.
    Total-bind (Total-lift (function_decode-ne-stuck code)) λ function.
      Total-bind (Total-if (includes_iin function) Total-read_u16_le Total-pure) λ iin.
        Total-bind (record { passes = λ r. Passes-decode_objects (remaining r) r (omega arith) })
          λ objects. Total-pure

-- Decoding a fragment ends with a fragment or an error on every input, whatever counts, ranges and
-- padding its object headers announce.
pub decode-ne-stuck_fragment : (input : List ℕ) → decode input ≢ stuck
unfolding decode
decode-ne-stuck_fragment input =
    >>=-ne-stuck (decode_fragment (Reader.new input)) _
      (Progress-ne-stuck 0 decode_fragment Total-fragment.passes (Reader.new input)) λ p e e'. cc
