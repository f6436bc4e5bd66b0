-- ===== src/Examples/Forms.antt =====
-- The two forms of an index with a value are read alike.
use dnp3_rust_lib.Prelude.{
  ℕ, ◌≡◌, refl, sym, ap, ◌∙◌, false, none, some, List, [], ◌∷◌, ◌++◌, All, append-nil, ◌==◌,
}
use mathlib.Core.Path.{ap₂}
use dnp3_rust_lib.Examples.Text.{
  Text, is_whitespace, trim, trim_end, before_trimmed, add_word, split_words, split_whitespace,
  split_once, with_first,
}
use dnp3_rust_lib.Examples.Cli.{ok, split_at, split_index_value, split_words_value}

-- A character that neither separates words nor an index from its value.
abbrev pub IsPlain : ℕ → Type 0
IsPlain c = (is_whitespace c ≡ false) × ((c == 61) ≡ false)

-- A word that does not end at a separator: some plain characters.
abbrev pub IsWord : Text → Type 0
IsWord [] = ⊥
IsWord (c ∷ s) = IsPlain c × All IsPlain s

IsWord-All : (w : Text) → IsWord w → All IsPlain w
IsWord-All (c ∷ s) h = h
IsWord-All [] h = tt

split_once-found : (w rest : Text) → All IsPlain w → split_once 61 (w ++ 61 ∷ rest) ≡ some (w, rest)
unfolding split_once
split_once-found [] rest h = refl
split_once-found (c ∷ s) rest ((hw, he), hs) = rw (he, split_once-found s rest hs) refl

split_once-absent :
    (w rest : Text) → All IsPlain w → split_once 61 rest ≡ none → split_once 61 (w ++ rest) ≡ none
unfolding split_once
split_once-absent [] rest h k = k
split_once-absent (c ∷ s) rest ((hw, he), hs) k = rw (he, split_once-absent s rest hs k) refl

split_once-space : (w : Text) → All IsPlain w → split_once 61 (32 ∷ w) ≡ none
unfolding split_once
split_once-space w h =
    ap (with_first 32) (ap (split_once 61) (sym (append-nil w)) ∙ split_once-absent w [] h refl)

trim_end-plain : (w : Text) → All IsPlain w → trim_end w ≡ w
trim_end-plain [] h = refl
trim_end-plain (c ∷ s) (hc, hs) = ap (before_trimmed c) (trim_end-plain s hs) ∙ before_plain s
  where
    before_plain : (s : Text) → before_trimmed c s ≡ c ∷ s
    before_plain [] = rw (hc.0) refl
    before_plain (d ∷ s) = refl

trim-word : (w : Text) → IsWord w → trim w ≡ w
unfolding trim
trim-word (c ∷ s) (hc, hs) = rw (hc.0) (trim_end-plain (c ∷ s) (hc, hs))
trim-word [] h = absurd h

-- A word at the front of a text is the beginning of the word that the text begins with.
split_words-append :
    (w rest : Text)
    → All IsPlain w
    → split_words (w ++ rest) ≡ (w ++ (split_words rest).0, (split_words rest).1)
split_words-append [] rest h = refl
split_words-append (c ∷ s) rest ((hw, he), hs) =
    rw hw (ap (λ p. (c ∷ p.0, p.1)) (split_words-append s rest hs))

split_words-word : (w : Text) → All IsPlain w → split_words w ≡ (w, [])
split_words-word w h =
    ap split_words (sym (append-nil w)) ∙ split_words-append w [] h ∙ λ i. (append-nil w i, [])

add_word-word : (w : Text) (words : List Text) → IsWord w → add_word w words ≡ w ∷ words
add_word-word (c ∷ s) words h = refl
add_word-word [] words h = absurd h

split_whitespace-two :
    (index value : Text)
    → IsWord index
    → IsWord value
    → split_whitespace (index ++ 32 ∷ value) ≡ index ∷ value ∷ []
unfolding split_whitespace is_whitespace
split_whitespace-two index value hi hv =
    ap (λ p. add_word p.0 p.1)
      (split_words-append index (32 ∷ value) (IsWord-All index hi) ∙ λ i.
        (append-nil index i, last_word i))
    ∙ add_word-word index (value ∷ []) hi
  where
    last_word : (split_words (32 ∷ value)).1 ≡ value ∷ []
    last_word =
        ap (λ p. add_word p.0 p.1) (split_words-word value (IsWord-All value hv))
        ∙ add_word-word value [] hv

-- An index and a value, both without white space and equals signs, are read alike from `INDEX=VALUE` and
-- from `INDEX VALUE`: as this index and this value.
pub split_index_value-forms :
    (index value : Text)
    → IsWord index
    → IsWord value
    → (split_index_value (index ++ 61 ∷ value) ≡ ok (index, value))
      × (split_index_value (index ++ 32 ∷ value) ≡ ok (index, value))
unfolding split_index_value
split_index_value-forms index value hi hv = (
  ap (split_at (index ++ 61 ∷ value)) (split_once-found index value (IsWord-All index hi))
      ∙ ap₂ (λ i v. ok (i, v)) (trim-word index hi) (trim-word value hv),
  ap (split_at (index ++ 32 ∷ value)) (
        split_once-absent index (32 ∷ value) (IsWord-All index hi)
          (split_once-space value (IsWord-All value hv)))
      ∙ ap split_words_value (split_whitespace-two index value hi hv),
)
