-- ===== src/Examples/Cli.antt =====
-- The interactive commands of examples/common/outstation_shared.rs. What is printed is left out.
use dnp3_rust_lib.Prelude.{
  ℕ, ◌-◌, ◌^◌, String, Bool, true, false, ◌||◌, Option, none, some, List, [], ◌∷◌, ◌++◌,
  if◌then◌else◌,
}
use dnp3_rust_lib.Prelude.Bytes.{bytes_eq}
use dnp3_rust_lib.Outstation.{Database}
use dnp3_rust_lib.Examples.Points.{
  IndexedBool, IndexedI32, IndexedU32, set_binary_input, set_binary_output, set_analog_input,
  set_analog_output, set_counter,
}
use dnp3_rust_lib.Examples.Text.{
  Text, codes, trim, split_whitespace, split_once, join, to_ascii_lowercase, parse_unsigned,
  parse_i32,
}

-- `Result<_, String>`
pub data Parsed {ℓ} (A : Type ℓ) : Type ℓ where
  ok : A → Parsed A
  err : Text → Parsed A

infixl 5 ◌>>=◌
abbrev pub ◌>>=◌ {ℓ κ} : {A : Type ℓ} {B : Type κ} → Parsed A → (A → Parsed B) → Parsed B
ok value >>= next = next value
err message >>= next = err message

-- `ok_or` and `map_err` on an optional value.
abbrev pub or_err {ℓ} : {A : Type ℓ} → Option A → Text → Parsed A
or_err none message = err message
or_err (some value) message = ok value

abbrev pub words_expected : Text
words_expected = codes "expected INDEX VALUE or INDEX=VALUE"

-- The words of a text without an equals sign.
abbrev pub split_words_value : List Text → Parsed (Text × Text)
split_words_value [] = err words_expected
split_words_value (index ∷ []) = err words_expected
split_words_value (index ∷ value ∷ []) = ok (index, value)
split_words_value (index ∷ value ∷ more ∷ _) =
    err (codes "too many values; use INDEX=VALUE or INDEX VALUE")

-- The parts of a text around its first equals sign.
abbrev pub split_at : Text → Option (Text × Text) → Parsed (Text × Text)
split_at s (some (index, value)) = ok (trim index, trim value)
split_at s none = split_words_value (split_whitespace s)

unfoldable pub split_index_value : Text → Parsed (Text × Text)
split_index_value s = split_at s (split_once 61 s)

unfoldable pub parse_index : Text → Parsed ℕ
parse_index s =
    or_err (parse_unsigned (2 ^ 16 - 1) s)
      (codes "invalid index '" ++ (s ++ codes "'; expected 0-65535"))

abbrev pub one_of : Text → List String → Bool
one_of s [] = false
one_of s (word ∷ words) = bytes_eq s (codes word) || one_of s words

unfoldable pub parse_binary_value : Text → Parsed Bool
parse_binary_value s =
    if one_of s ("0" ∷ "false" ∷ "off" ∷ "OFF" ∷ [])
    then ok false
    else if one_of s ("1" ∷ "true" ∷ "on" ∷ "ON" ∷ [])
    then ok true
    else err (codes "invalid binary value '" ++ (s ++ codes "'; use 0/1, off/on, or false/true"))

unfoldable pub parse_indexed_bool : Text → Parsed IndexedBool
unfolding split_index_value parse_index parse_binary_value
parse_indexed_bool s = do
  (index, value) ← split_index_value s
  i ← parse_index index
  v ← parse_binary_value value
  ok (record { index = i; value = v })

unfoldable pub parse_indexed_i32 : Text → Parsed IndexedI32
unfolding split_index_value parse_index
parse_indexed_i32 s = do
  (index, value) ← split_index_value s
  i ← parse_index index
  v ← or_err (parse_i32 value) (codes "invalid analog value '" ++ (value ++ codes "'"))
  ok (record { index = i; value = v })

unfoldable pub parse_indexed_u32 : Text → Parsed IndexedU32
unfolding split_index_value parse_index
parse_indexed_u32 s = do
  (index, value) ← split_index_value s
  i ← parse_index index
  v ←
      or_err (parse_unsigned (2 ^ 32 - 1) value)
        (codes "invalid counter value '" ++ (value ++ codes "'"))
  ok (record { index = i; value = v })

-- The database behind its lock, which a thread that panicked may have poisoned.
pub record Lock : Type 0 where
  pub database : Database
  pub poisoned : Bool

abbrev pub locked : Lock → Parsed Database
locked lock = if lock.poisoned then err (codes "database lock poisoned") else ok lock.database

-- `join_args`
abbrev pub join_args : List Text → Text
join_args parts = join (codes " ") parts

-- The branch of a command that sets a point: what the text sets is parsed before the lock is taken.
abbrev pub set_point {ℓ} :
    {A : Type ℓ} → Parsed A → (Database → A → Database) → Lock → Parsed Database
set_point parsed set lock = do point ← parsed; database ← locked lock; ok (set database point)

-- The `match` on the command: the database after it.
unfoldable pub run_command : Text → Text → Lock → Parsed Database
unfolding parse_indexed_bool parse_indexed_i32 parse_indexed_u32 set_binary_input set_binary_output
    set_analog_input set_analog_output set_counter
run_command command rest lock =
    if one_of command ("help" ∷ "?" ∷ [])
    then ok lock.database
    else if one_of command ("show" ∷ "list" ∷ [])
    then locked lock
    else if one_of command ("bi" ∷ "binary-input" ∷ [])
    then set_point (parse_indexed_bool rest)
        (λ db point. set_binary_input db point.index point.value) lock
    else if one_of command ("bo" ∷ "binary-output" ∷ [])
    then set_point (parse_indexed_bool rest)
        (λ db point. set_binary_output db point.index point.value) lock
    else if one_of command ("ai" ∷ "analog-input" ∷ [])
    then set_point (parse_indexed_i32 rest)
        (λ db point. set_analog_input db point.index point.value) lock
    else if one_of command ("ao" ∷ "analog-output" ∷ [])
    then set_point (parse_indexed_i32 rest)
        (λ db point. set_analog_output db point.index point.value) lock
    else if one_of command ("ct" ∷ "counter" ∷ [])
    then set_point (parse_indexed_u32 rest) (λ db point. set_counter db point.index point.value)
        lock
    else err (codes "unknown command '" ++ (command ++ codes "'; type 'help'"))

abbrev pub unwrap_or_default : List Text → Text
unwrap_or_default [] = []
unwrap_or_default (word ∷ words) = word

abbrev pub behind_first : List Text → List Text
behind_first [] = []
behind_first (word ∷ words) = words

-- `handle_cli_line`: the result, and the database behind the lock after it.
unfoldable pub handle_cli_line : Lock → Text → Parsed (Unit {0}) × Lock
unfolding run_command
handle_cli_line lock line = elim (trim line) [
  | [] ↦ (ok tt, lock)
  | c ∷ s ↦
      let words = split_whitespace (c ∷ s) in
      elim (run_command (to_ascii_lowercase (unwrap_or_default words))
        (join_args (behind_first words)) lock) [
          | ok database ↦ (ok tt, record lock { database = database })
          | err message ↦ (err message, lock)
        ]
]
