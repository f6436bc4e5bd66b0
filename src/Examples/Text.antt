-- ===== src/Examples/Text.antt =====
-- What examples/common/outstation_shared.rs uses of Rust's `str`. A text is the list of its code points.
use Prim.Native.Char.{code}
use Prim.Native.String as Str
use dnp3_rust_lib.Prelude.{
  ℕ, ◌+◌, ◌-◌, ◌*◌, ◌%◌, ◌^◌, String, Bool, ◌&&◌, ◌||◌, Option, none, some, List, [], ◌∷◌, ◌++◌,
  leb, if◌then◌else◌, ◌==◌,
}

abbrev pub Text : Type 0
Text = List ℕ

abbrev pub codes : String → Text
codes Str.[] = []
codes (Str.◌∷◌ c s) = code c ∷ codes s

-- `char::is_whitespace`: the characters with the property White_Space.
unfoldable pub is_whitespace : ℕ → Bool
is_whitespace c =
    (leb 9 c && leb c 13)
    || (c == 0x20)
    || (c == 0x85)
    || (c == 0xa0)
    || (c == 0x1680)
    || (leb 0x2000 c && leb c 0x200a)
    || (c == 0x2028)
    || (c == 0x2029)
    || (c == 0x202f)
    || (c == 0x205f)
    || (c == 0x3000)

abbrev pub trim_start : Text → Text
trim_start [] = []
trim_start (c ∷ s) = let rest = trim_start s in if is_whitespace c then rest else c ∷ s

-- A character in front of a trimmed text: white space stays only before something else.
abbrev pub before_trimmed : ℕ → Text → Text
before_trimmed c [] = if is_whitespace c then [] else c ∷ []
before_trimmed c (d ∷ s) = c ∷ d ∷ s

abbrev pub trim_end : Text → Text
trim_end [] = []
trim_end (c ∷ s) = before_trimmed c (trim_end s)

unfoldable pub trim : Text → Text
trim s = trim_end (trim_start s)

-- An empty word is no word.
abbrev pub add_word : Text → List Text → List Text
add_word [] words = words
add_word (c ∷ s) words = (c ∷ s) ∷ words

-- The word that a text begins with, and the words behind it.
abbrev pub split_words : Text → Text × List Text
split_words [] = ([], [])
split_words (c ∷ s) =
    let (word, words) = split_words s in
    if is_whitespace c then ([], add_word word words) else (c ∷ word, words)

unfoldable pub split_whitespace : Text → List Text
split_whitespace s = let (word, words) = split_words s in add_word word words

abbrev pub with_first : ℕ → Option (Text × Text) → Option (Text × Text)
with_first c none = none
with_first c (some (before, behind)) = some (c ∷ before, behind)

unfoldable pub split_once : ℕ → Text → Option (Text × Text)
split_once separator [] = none
split_once separator (c ∷ s) =
    let later = split_once separator s in
    if c == separator then some ([], s) else with_first c later

-- `join` on a list of texts.
abbrev pub join : Text → List Text → Text
join separator [] = []
join separator (word ∷ []) = word
join separator (word ∷ next ∷ words) = word ++ (separator ++ join separator (next ∷ words))

-- `to_ascii_lowercase`
abbrev pub to_ascii_lowercase : Text → Text
to_ascii_lowercase [] = []
to_ascii_lowercase (c ∷ s) = (if leb 65 c && leb c 90 then c + 32 else c) ∷ to_ascii_lowercase s

-- The value of decimal digits behind a number.
abbrev pub digits : ℕ → Text → Option ℕ
digits value [] = some value
digits value (c ∷ s) =
    let rest = digits (value * 10 + (c - 48)) s in if leb 48 c && leb c 57 then rest else none

abbrev pub some_digits : Text → Option ℕ
some_digits [] = none
some_digits (c ∷ s) = digits 0 (c ∷ s)

abbrev pub at_most : ℕ → Option ℕ → Option ℕ
at_most max none = none
at_most max (some value) = if leb value max then some value else none

abbrev pub skip_plus : Text → Text
skip_plus [] = []
skip_plus (c ∷ s) = if c == 43 then s else c ∷ s

-- `parse` to an unsigned type whose largest value is `max`.
unfoldable pub parse_unsigned : ℕ → Text → Option ℕ
parse_unsigned max s = at_most max (some_digits (skip_plus s))

-- The bit pattern of a negated i32.
abbrev pub negated : Option ℕ → Option ℕ
negated none = none
negated (some value) = some ((2 ^ 32 - value) % 2 ^ 32)

-- `parse` to an i32, as its bit pattern.
unfoldable pub parse_i32 : Text → Option ℕ
parse_i32 [] = none
parse_i32 (c ∷ s) =
    if c == 45
    then negated (at_most (2 ^ 31) (some_digits s))
    else at_most (2 ^ 31 - 1) (some_digits (skip_plus (c ∷ s)))
