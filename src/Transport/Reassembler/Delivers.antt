-- ===== src/Transport/Reassembler/Delivers.antt =====
-- The segments of `fragment` are put together again.
use dnp3_rust_lib.Prelude.{
  Bool, !=_refl, ℕ, zero, suc, ◌+◌, ◌%◌, ◌<◌, ◌≡◌, refl, sym, ap, ◌∙◌, true, false, bit_and, none,
  some, List, [], ◌∷◌, ◌++◌, append-nil, append_assoc, length, arith, Option, ◌==◌, ne→==, eq→==,
  ◌-◌,
}
use dnp3_rust_lib.Prelude.Chunks.{chunks, chunks_step, concat, concat-chunks}
use dnp3_rust_lib.Prelude.Masks.{and_3f}
use dnp3_rust_lib.Core.Error.{Result, ok}
use dnp3_rust_lib.Transport.Segment.{TransportSegment, new_header, segments_from, fragment}
use dnp3_rust_lib.Transport.Segment.Shape.{fragment-cons}
use dnp3_rust_lib.Transport.Reassembler.{Reassembler, new, push, push_all}

-- `n` segments that leave the reassembler waiting, then one that completes `bytes`.
abbrev pub waits_then : ℕ → List ℕ → List (Result (Option (List ℕ)))
waits_then zero bytes = ok (some bytes) ∷ []
waits_then (suc n) bytes = ok none ∷ waits_then n bytes

waiting : ℕ → List ℕ → Reassembler
waiting n buffer = record { expected_sequence = some n; buffer = buffer }

seq_of : (start index : ℕ) → bit_and ((start + index % 256) % 256) 0x3f ≡ (start + index) % 64
seq_of start index = and_3f ((start + index % 256) % 256) (omega arith) ∙ omega arith

next_of : (s : ℕ) → s < 64 → bit_and ((s + 1) % 256) 0x3f ≡ (s + 1) % 64
next_of s h = and_3f ((s + 1) % 256) (omega arith) ∙ omega arith

-- A segment by its parts.
segment : Bool → Bool → ℕ → List ℕ → TransportSegment
segment fir fin s payload = record {
  header = record { fir = fir; fin = fin; sequence = s };
  payload = payload;
}

segments_from_step :
    (count start index : ℕ) (chunk : List ℕ) (rest : List (List ℕ)) (fir fin : Bool)
    → (index == 0) ≡ fir
    → (index + 1 == count) ≡ fin
    → segments_from count start index (chunk ∷ rest)
      ≡ segment fir fin ((start + index) % 64) chunk ∷ segments_from count start (index + 1) rest
unfolding segments_from segment new_header
segments_from_step count start index chunk rest fir fin hfir hfin =
    rw (seq_of start index, hfir, hfin)

-- The state after a segment that was accepted with the buffer `complete`.
accepted : Bool → ℕ → List ℕ → Result (Option (List ℕ)) × Reassembler
accepted true s complete = (ok (some complete), new)
accepted false s complete = (ok none, waiting ((s + 1) % 64) complete)

push_first :
    (fin : Bool) (s : ℕ) (payload : List ℕ) (r : Reassembler)
    → s < 64
    → push (segment true fin s payload) r ≡ accepted fin s payload
unfolding push segment accepted waiting new
push_first true s payload r h = rw (!=_refl s)
push_first false s payload r h = rw (!=_refl s, next_of s h)

push_next :
    (fin : Bool) (s : ℕ) (payload buffer : List ℕ)
    → s < 64
    → push (segment false fin s payload) (waiting s buffer) ≡ accepted fin s (buffer ++ payload)
unfolding push segment accepted waiting new
push_next true s payload buffer h = rw (!=_refl s)
push_next false s payload buffer h = rw (!=_refl s, next_of s h)

push_all_step :
    (s : TransportSegment) (rest : List TransportSegment) (r r' r'' : Reassembler)
    (x : Result (Option (List ℕ))) (xs : List (Result (Option (List ℕ))))
    → push s r ≡ (x, r')
    → push_all rest r' ≡ (xs, r'')
    → push_all (s ∷ rest) r ≡ (x ∷ xs, r'')
unfolding push_all
push_all_step s rest r r' r'' x xs e f =
    ap
      (λ (p : Result (Option (List ℕ)) × Reassembler).
        let (ys, q) = push_all rest p.1 in (p.0 ∷ ys, q))
      e
    ∙ ap (λ (p : List (Result (Option (List ℕ))) × Reassembler). (x ∷ p.0, p.1)) f

push_all_nil : (r : Reassembler) → push_all [] r ≡ ([], r)
unfolding push_all
push_all_nil r = refl

segments_from_nil : (count start index : ℕ) → segments_from count start index [] ≡ []
unfolding segments_from
segments_from_nil count start index = refl

-- The segments of a run behind its first one.
push_rest :
    (count start index : ℕ) (chunk : List ℕ) (rest : List (List ℕ)) (buffer : List ℕ)
    → 0 < index
    → index + length (chunk ∷ rest) ≡ count
    → push_all
        (segments_from count start index (chunk ∷ rest))
        (waiting ((start + index) % 64) buffer)
      ≡ (waits_then (length rest) (buffer ++ concat (chunk ∷ rest)), new)
push_rest count start index chunk [] buffer pos total =
    rw
      (
        segments_from_step count start index chunk [] false true (ne→== index 0 (omega arith))
            (eq→== (index + 1) count (omega arith)),
        segments_from_nil count start (index + 1),
      )
      (push_all_step _ [] _ new new (ok (some (buffer ++ chunk))) []
          (push_next true ((start + index) % 64) chunk buffer (omega arith)
            ∙ unfold accepted in refl)
          (push_all_nil new)
        ∙ ap (λ (t : List ℕ). (ok (some (buffer ++ t)) ∷ [], new)) (sym (append-nil chunk)))
push_rest count start index chunk (c ∷ rest) buffer pos total =
    rw
      (segments_from_step count start index chunk (c ∷ rest) false false
        (ne→== index 0 (omega arith)) (ne→== (index + 1) count (omega arith)))
      (push_all_step _ _ _ (waiting ((start + (index + 1)) % 64) (buffer ++ chunk)) new (ok none) _
          (push_next false ((start + index) % 64) chunk buffer (omega arith)
            ∙ unfold accepted in
              (ap (λ (t : ℕ). (ok none, waiting t (buffer ++ chunk))) (omega arith)))
          (push_rest count start (index + 1) c rest (buffer ++ chunk) (omega arith) (omega arith))
        ∙ ap (λ (t : List ℕ). (ok none ∷ waits_then (length rest) t, new))
            (append_assoc buffer chunk (concat (c ∷ rest))))

push_run :
    (start : ℕ) (chunk : List ℕ) (rest : List (List ℕ)) (r : Reassembler)
    → push_all (segments_from (length (chunk ∷ rest)) start 0 (chunk ∷ rest)) r
      ≡ (waits_then (length rest) (concat (chunk ∷ rest)), new)
push_run start chunk [] r =
    rw (segments_from_step 1 start 0 chunk [] true true refl refl, segments_from_nil 1 start 1)
      (push_all_step _ [] r new new (ok (some chunk)) []
          (push_first true ((start + 0) % 64) chunk r (omega arith) ∙ unfold accepted in refl)
          (push_all_nil new)
        ∙ ap (λ (t : List ℕ). (ok (some t) ∷ [], new)) (sym (append-nil chunk)))
push_run start chunk (c ∷ rest) r =
    rw
      (segments_from_step (length (chunk ∷ c ∷ rest)) start 0 chunk (c ∷ rest) true false refl
        (ne→== 1 (length (chunk ∷ c ∷ rest)) (omega arith)))
      (push_all_step _ _ r (waiting ((start + 1) % 64) chunk) new (ok none) _
        (push_first false ((start + 0) % 64) chunk r (omega arith)
          ∙ unfold accepted in (ap (λ (t : ℕ). (ok none, waiting t chunk)) (omega arith)))
        (push_rest (length (chunk ∷ c ∷ rest)) start 1 c rest chunk (omega arith) (omega arith)))

push_pieces :
    (start : ℕ) (pieces : List (List ℕ)) (r : Reassembler)
    → 0 < length pieces
    → push_all (segments_from (length pieces) start 0 pieces) r
      ≡ (waits_then (length pieces - 1) (concat pieces), new)
push_pieces start [] r h = absurd (omega arith)
push_pieces start (c ∷ cs) r h =
    push_run start c cs r ∙ ap (λ (n : ℕ). (waits_then n (concat (c ∷ cs)), new)) (omega arith)

-- Whatever the reassembler was doing, the segments of `fragment` complete exactly the application
-- bytes, at the last segment and not before, and leave the reassembler empty.
pub push_all-fragment :
    (application : List ℕ) (start : ℕ) (r : Reassembler)
    → push_all (fragment application start) r
      ≡ (waits_then (length (chunks 249 application) - 1) application, new)
push_all-fragment [] start r =
    unfold fragment new_header chunks push_all push new in rw (!=_refl (bit_and start 63))
push_all-fragment (x ∷ xs) start r =
    ap (λ (ss : List TransportSegment). push_all ss r) (fragment-cons x xs start)
    ∙ push_pieces start (chunks 249 (x ∷ xs)) r (
        omega
          (arith, ap (length {A = List ℕ}) (chunks_step 249 (x ∷ xs) (omega arith) (omega arith))))
    ∙ ap (λ (t : List ℕ). (waits_then (length (chunks 249 (x ∷ xs)) - 1) t, new))
        (concat-chunks 249 (x ∷ xs) (omega arith))
