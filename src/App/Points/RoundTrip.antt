-- ===== src/App/Points/RoundTrip.antt =====
-- What `encode_like` writes is read back: for a run of indices as a range, else with prefixes.
use dnp3_rust_lib.Prelude.{
  ℕ, suc, ◌+◌, ◌^◌, ◌≤◌, ◌<◌, ◌≡◌, refl, sym, ap, ◌∙◌, true, false, none, some, Bool-cases, inl,
  inr, List, [], ◌∷◌, ◌++◌, map, length, All, arith, le→leb, if◌then◌else◌,
}
use mathlib.Core.Path.{subst}
use dnp3_rust_lib.Core.Error.{Result, ok}
use dnp3_rust_lib.Core.Reader.{Parser, lift}
use dnp3_rust_lib.Core.Reader.Reading.{Parses, Parses-bind, Parses-lift_ok}
use dnp3_rust_lib.App.ObjectHeader
use dnp3_rust_lib.App.ObjectHeader.{Qualifier, range16, count_and_prefix16}
use dnp3_rust_lib.App.ObjectHeader.RoundTrip
use dnp3_rust_lib.App.Points.{is_run, last_or, contiguous_u16_range, checked_count, range16_count}
use dnp3_rust_lib.App.Points.Encode.{bodies, encode_like}
use dnp3_rust_lib.App.Points.Loops.{
  decode_range, decode_prefixed, Parses-for_points, prefixed, range-ReadInTurn, prefixed-ReadInTurn,
  last_or-is_run, range16_count-run,
}

pub length-map {ℓ} : {A : Type ℓ} (f : A → ℕ) (xs : List A) → length (map f xs) ≡ length xs
length-map f [] = refl
length-map f (x ∷ xs) = ap suc (length-map f xs)

-- Room for the indices in an object: a run does not pass 0xffff, and a list with prefixes has at
-- most 255 points.
abbrev pub HasRoom : List ℕ → Type 0
HasRoom [] = Unit
HasRoom (start ∷ rest) =
    if is_run start 0 (start ∷ rest)
    then start + suc (length rest) ≤ 2 ^ 16
    else suc (length rest) ≤ 255

-- The header's qualifier and the bytes behind the header that `encode_like` writes for `xs`, whatever
-- stands before them, and that `dec` reads them back.
pub record Encoded {ℓ} {A : Type ℓ} (enc : ℕ → ℕ → List ℕ → Result (List ℕ))
    (dec : Qualifier → Parser (List A)) (xs : List A) : Type ℓ where
  pub qualifier : Qualifier
  pub body : List ℕ
  pub written :
      (group variation : ℕ) (out : List ℕ)
      → enc group variation out
        ≡ ok (ObjectHeader.encode (ObjectHeader.new group variation qualifier) out ++ body)
  pub valid : RoundTrip.IsValid qualifier
  pub read : Parses (dec qualifier) body xs

pub contiguous-run :
    (start : ℕ) (rest : List ℕ)
    → is_run start 0 (start ∷ rest) ≡ true
    → contiguous_u16_range (start ∷ rest) ≡ some (start, last_or start rest)
unfolding contiguous_u16_range
contiguous-run start rest h = rw h

contiguous-no_run :
    (start : ℕ) (rest : List ℕ)
    → is_run start 0 (start ∷ rest) ≡ false
    → contiguous_u16_range (start ∷ rest) ≡ none
unfolding contiguous_u16_range
contiguous-no_run start rest h = rw h

module _ {ℓ} {A : Type ℓ} (index_of : A → ℕ) (body prefixed' : A → List ℕ) (group variation : ℕ)
    (xs : List A) (out : List ℕ) where
  pub encode_like_range :
      (start stop : ℕ)
      → contiguous_u16_range (map index_of xs) ≡ some (start, stop)
      → encode_like index_of body prefixed' group variation xs out
        ≡ ok (
            ObjectHeader.encode (ObjectHeader.new group variation (range16 start stop)) out
            ++ bodies body xs)
  unfolding encode_like
  encode_like_range start stop e = rw (e, encode_like)

  encode_like_prefixed :
      contiguous_u16_range (map index_of xs) ≡ none
      → length xs ≤ 255
      → encode_like index_of body prefixed' group variation xs out
        ≡ ok (
            ObjectHeader.encode
              (ObjectHeader.new group variation (count_and_prefix16 (length xs)))
              out
            ++ bodies prefixed' xs)
  unfolding encode_like checked_count
  encode_like_prefixed e h = rw (e, encode_like) (rw (le→leb (length xs) 255 h))

module _ {ℓ} {A : Type ℓ} (index_of : A → ℕ) (body : A → List ℕ) (point : ℕ → Parser A)
    (Fits : A → Type 0) (reads : (x : A) → Fits x → Parses (point (index_of x)) (body x) x)
    (indexed : (x : A) → Fits x → index_of x < 2 ^ 16) (dec : Qualifier → Parser (List A))
    (dec_range : (start stop : ℕ) → dec (range16 start stop) ≡ decode_range point start stop)
    (dec_prefixed : (count : ℕ)
      → dec (count_and_prefix16 count) ≡ decode_prefixed point count) where
  abbrev enc : List A → ℕ → ℕ → List ℕ → Result (List ℕ)
  enc xs group variation out =
      encode_like index_of body (prefixed index_of body) group variation xs out

  Parses-prefixed :
      (xs : List A)
      → All Fits xs
      → Parses (dec (count_and_prefix16 (length xs))) (bodies (prefixed index_of body) xs) xs
  Parses-prefixed xs h =
      subst (λ (m : Parser (List A)). Parses m (bodies (prefixed index_of body) xs) xs)
        (sym (dec_prefixed (length xs)))
        (Parses-for_points _ _ 0 xs
          (prefixed-ReadInTurn index_of body point Fits reads indexed 0 xs h))

  Parses-range :
      (x : A) (xs : List A)
      → All Fits (x ∷ xs)
      → is_run (index_of x) 0 (map index_of (x ∷ xs)) ≡ true
      → index_of x + suc (length xs) ≤ 2 ^ 16
      → Parses
          (dec (range16 (index_of x) (last_or (index_of x) (map index_of xs))))
          (bodies body (x ∷ xs))
          (x ∷ xs)
  Parses-range x xs h run room =
      subst (λ (m : Parser (List A)). Parses m (bodies body (x ∷ xs)) (x ∷ xs))
        (sym (dec_range (index_of x) (last_or (index_of x) (map index_of xs))))
        (Parses-bind (lift (range16_count (index_of x) (last_or (index_of x) (map index_of xs)))) _
          [] (bodies body (x ∷ xs)) (length (x ∷ xs)) (x ∷ xs)
          (Parses-lift_ok (
            range16_count-run (index_of x) (map index_of xs) (omega (arith, length-map index_of xs))
              run
            ∙ ap (λ (n : ℕ). ok (suc n)) (length-map index_of xs)))
          (Parses-for_points _ _ 0 (x ∷ xs) (
            range-ReadInTurn index_of body point Fits reads indexed (index_of x) 0 (x ∷ xs) h run)))

  pub encode_like-Encoded :
      (xs : List A) → All Fits xs → HasRoom (map index_of xs) → Encoded (enc xs) dec xs
  encode_like-Encoded [] h room = record {
    qualifier = count_and_prefix16 0;
    body = [];
    written = λ group variation out.
        encode_like_prefixed index_of body (prefixed index_of body) group variation [] out
          (unfold contiguous_u16_range in refl) (omega arith);
    valid = omega arith;
    read = Parses-prefixed [] tt;
  }
  encode_like-Encoded (x ∷ xs) h room =
      elim (Bool-cases (is_run (index_of x) 0 (map index_of (x ∷ xs)))) [
        | inl run ↦
            let fits : index_of x + suc (length (map index_of xs)) ≤ 2 ^ 16 = rw run at room in
            record {
              qualifier = range16 (index_of x) (last_or (index_of x) (map index_of xs));
              body = bodies body (x ∷ xs);
              written = λ group variation out.
                  encode_like_range index_of body (prefixed index_of body) group variation (x ∷ xs)
                    out (index_of x) (last_or (index_of x) (map index_of xs))
                    (contiguous-run (index_of x) (map index_of xs) run);
              valid = (
                indexed x h.0,
                omega (
                  arith,
                  last_or-is_run (index_of x) 0 (index_of x) (index_of x) (map index_of xs) run,
                ),
              );
              read = Parses-range x xs h run (omega (arith, length-map index_of xs));
            }
        | inr no_run ↦
            let fits : suc (length (map index_of xs)) ≤ 255 = rw no_run at room in
            record {
              qualifier = count_and_prefix16 (length (x ∷ xs));
              body = bodies (prefixed index_of body) (x ∷ xs);
              written = λ group variation out.
                  encode_like_prefixed index_of body (prefixed index_of body) group variation
                    (x ∷ xs) out (contiguous-no_run (index_of x) (map index_of xs) no_run)
                    (omega (arith, length-map index_of xs));
              valid = omega (arith, length-map index_of xs);
              read = Parses-prefixed (x ∷ xs) h;
            }
      ]
