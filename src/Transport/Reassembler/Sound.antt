-- ===== src/Transport/Reassembler/Sound.antt =====
-- What the reassembler delivers is one run of the segments that it was given last.
use dnp3_rust_lib.Prelude.{
  ℕ, ◌+◌, ◌%◌, ◌<◌, ◌≡◌, refl, sym, ◌∙◌, Bool, true, false, Bool-cases, inl, inr, bit_and, Option,
  none, some, List, [], ◌∷◌, ◌++◌, arith, ◌!=◌,
}
use mathlib.Core.Path.{subst}
use dnp3_rust_lib.Prelude.Masks.{and_3f}
use dnp3_rust_lib.Core.Error.{ok, err, stuck, invalid_sequence}
use dnp3_rust_lib.Transport.Segment.{TransportSegment}
use dnp3_rust_lib.Transport.Reassembler.{
  Reassembler, Pushed, new, reset, push, push_open, push_expected,
}

-- The newest segments, newest first, are a run: its oldest segment is marked as the first, no later
-- one is, and their sequence numbers count up modulo 64. The run waits for the number given here,
-- and its payloads in the order of their arrival are the bytes.
pub data Run : List TransportSegment → ℕ → List ℕ → Type 0 where
  begins :
      {segment : TransportSegment} {earlier : List TransportSegment}
      → segment.header.fir ≡ true
      → Run (segment ∷ earlier) ((segment.header.sequence + 1) % 64) segment.payload
  continues :
      {segment : TransportSegment} {earlier : List TransportSegment} {next : ℕ} {bytes : List ℕ}
      → Run earlier next bytes
      → segment.header.fir ≡ false
      → segment.header.sequence ≡ next
      → Run (segment ∷ earlier) ((next + 1) % 64) (bytes ++ segment.payload)

-- The states that pushes and resets lead to, with the segments pushed so far, newest first.
pub data Reaches : List TransportSegment → Reassembler → Type 0 where
  start : Reaches [] new
  pushed :
      {earlier : List TransportSegment} {r : Reassembler} (segment : TransportSegment)
      → Reaches earlier r
      → segment.header.sequence < 64
      → Reaches (segment ∷ earlier) (push segment r).1
  cleared :
      {earlier : List TransportSegment} {r : Reassembler}
      → Reaches earlier r
      → Reaches earlier (reset r)

-- What a state remembers: a reassembler that waits for a number holds the run that leads to it.
abbrev pub Explained : List TransportSegment → Option ℕ → List ℕ → Type 0
Explained earlier none buffer = Unit
Explained earlier (some next) buffer = (next < 64) × Run earlier next buffer

abbrev Outcome : List TransportSegment → Bool → Pushed → Type 0
Outcome all fin (ok (some bytes), r) = (next : ℕ) × Run all next bytes × (fin ≡ true) × (r ≡ new)
Outcome all fin (ok none, r) = (fin ≡ false) × Explained all r.expected_sequence r.buffer
Outcome all fin (err e, r) = Explained all r.expected_sequence r.buffer
Outcome all fin (stuck, r) = ⊥

next_of : (s : ℕ) → s < 64 → bit_and ((s + 1) % 256) 0x3f ≡ (s + 1) % 64
next_of s h = and_3f ((s + 1) % 256) (omega arith) ∙ omega arith

!=→eq : (a b : ℕ) → (a != b) ≡ false → a ≡ b
!=→eq a b h = ground arith

module _ (segment : TransportSegment) (r : Reassembler) (expected : ℕ) where
  push_expected-wrong :
      (segment.header.sequence != expected) ≡ true
      → push_expected segment r expected
        ≡ (err (invalid_sequence expected segment.header.sequence), new)
  unfolding push_expected reset new
  push_expected-wrong h = rw (h, push_expected)

  push_expected-last :
      (segment.header.sequence != expected) ≡ false
      → segment.header.fin ≡ true
      → push_expected segment r expected ≡ (ok (some (r.buffer ++ segment.payload)), new)
  unfolding push_expected new
  push_expected-last h last = rw (h, last, push_expected)

  push_expected-more :
      expected < 64
      → (segment.header.sequence != expected) ≡ false
      → segment.header.fin ≡ false
      → push_expected segment r expected ≡ (
        ok none,
        record {
          expected_sequence = some ((expected + 1) % 64);
          buffer = r.buffer ++ segment.payload;
        },
      )
  unfolding push_expected
  push_expected-more he h more = rw (h, more, next_of expected he, push_expected)

push-first :
    (segment : TransportSegment) (r : Reassembler)
    → segment.header.fir ≡ true
    → push segment r
      ≡ push_expected segment
          (record { expected_sequence = some segment.header.sequence; buffer = [] })
          segment.header.sequence
unfolding push push_open
push-first segment r h = simp (h)

push-later :
    (segment : TransportSegment) (r : Reassembler)
    → segment.header.fir ≡ false
    → push segment r ≡ push_open segment r
unfolding push
push-later segment r h = simp (h)

push_expected-Outcome :
    (all : List TransportSegment) (segment : TransportSegment) (r : Reassembler) (expected : ℕ)
    → expected < 64
    → (segment.header.sequence ≡ expected
        → Run all ((expected + 1) % 64) (r.buffer ++ segment.payload))
    → Outcome all segment.header.fin (push_expected segment r expected)
push_expected-Outcome all segment r expected he run =
    elim (Bool-cases (segment.header.sequence != expected)) [
      | inl differs ↦
          subst (Outcome all segment.header.fin)
            (sym (push_expected-wrong segment r expected differs)) (unfold new in tt)
      | inr same ↦ elim (Bool-cases segment.header.fin) [
        | inl last ↦
            subst (Outcome all segment.header.fin)
              (sym (push_expected-last segment r expected same last))
              ((expected + 1) % 64, run (!=→eq _ _ same), last, refl)
        | inr more ↦
            subst (Outcome all segment.header.fin)
              (sym (push_expected-more segment r expected he same more))
              (more, (omega arith, run (!=→eq _ _ same)))
      ]
    ]

push_open-Outcome :
    (earlier : List TransportSegment) (segment : TransportSegment) (expected : Option ℕ)
    (buffer : List ℕ)
    → segment.header.fir ≡ false
    → Explained earlier expected buffer
    → Outcome
        (segment ∷ earlier)
        segment.header.fin
        (push_open segment (record { expected_sequence = expected; buffer = buffer }))
unfolding push_open
push_open-Outcome earlier segment none buffer hf h = tt
push_open-Outcome earlier segment (some expected) buffer hf (hn, run) =
    push_expected-Outcome (segment ∷ earlier) segment
      (record { expected_sequence = some expected; buffer = buffer }) expected hn
      (λ e. continues run hf e)

push-Outcome :
    (earlier : List TransportSegment) (segment : TransportSegment) (r : Reassembler)
    → segment.header.sequence < 64
    → Explained earlier r.expected_sequence r.buffer
    → Outcome (segment ∷ earlier) segment.header.fin (push segment r)
unfolding push push_open
push-Outcome earlier segment r hs h = elim (Bool-cases segment.header.fir) [
  | inl first ↦
      subst (Outcome (segment ∷ earlier) segment.header.fin) (sym (push-first segment r first)) (
        push_expected-Outcome (segment ∷ earlier) segment
          (record { expected_sequence = some segment.header.sequence; buffer = [] })
          segment.header.sequence hs (λ e. begins first))
  | inr later ↦
      subst (Outcome (segment ∷ earlier) segment.header.fin) (sym (push-later segment r later))
        (push_open-Outcome earlier segment r.expected_sequence r.buffer later h)
]

Outcome-Explained :
    (all : List TransportSegment) (fin : Bool) (p : Pushed)
    → Outcome all fin p
    → Explained all p.1.expected_sequence p.1.buffer
unfolding new
Outcome-Explained all fin (ok (some bytes), r) (next, run, last, empty) =
    subst (λ (x : Reassembler). Explained all x.expected_sequence x.buffer) (sym empty) tt
Outcome-Explained all fin (ok none, r) (more, h) = h
Outcome-Explained all fin (err e, r) h = h
Outcome-Explained all fin (stuck, r) h = absurd h

-- In every state that pushes of segments with six-bit numbers and resets lead to, a reassembler that
-- waits for a sequence number waits for one below 64, and its buffer is the run of newest segments
-- that leads to that number.
pub Reaches-Explained :
    {earlier : List TransportSegment} {r : Reassembler}
    → Reaches earlier r
    → Explained earlier r.expected_sequence r.buffer
unfolding new reset
Reaches-Explained start = tt
Reaches-Explained (pushed {earlier} {r} segment before hs) =
    Outcome-Explained (segment ∷ earlier) segment.header.fin (push segment r)
      (push-Outcome earlier segment r hs (Reaches-Explained before))
Reaches-Explained (cleared before) = tt

-- In every state that pushes and resets lead to, a segment with a six-bit number whose push completes
-- `bytes` is marked as the last, the bytes are the payloads of a run of the newest segments, which
-- that segment ends, and the reassembler is empty again. So neither a segment out of order nor one of
-- an earlier run is part of what is delivered.
pub push-Run :
    {earlier : List TransportSegment} {r r' : Reassembler} {bytes : List ℕ}
    (segment : TransportSegment)
    → Reaches earlier r
    → segment.header.sequence < 64
    → push segment r ≡ (ok (some bytes), r')
    → (next : ℕ) × Run (segment ∷ earlier) next bytes × (segment.header.fin ≡ true) × (r' ≡ new)
push-Run {earlier} {r} segment before hs done =
    subst (Outcome (segment ∷ earlier) segment.header.fin) done
      (push-Outcome earlier segment r hs (Reaches-Explained before))
