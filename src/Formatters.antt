-- ===== src/Formatters.antt =====
-- solidity/param.js and solidity/formatters.js of src/console/jsre/deps/web3.js: values to words of
-- 64 hexadecimal digits and back. `none` is an exception.
pub mod Numbers
pub mod Signed
mod Tests
use ultron.Prelude.{
  ℕ, ◌+◌, ◌-◌, ◌*◌, ◌/◌, Bool, true, false, ◌&&◌, Option, none, some, List, [], ◌∷◌, ◌++◌, map,
  if◌then◌else◌, ◌==◌, length, take, drop, replicate,
}
use mathlib.Core.Option
use ultron.Prelude.Int.{pos}
use ultron.Text.{Text, codes, text_eq, substr, take_last, is_digit}
use ultron.Text.Number.{leading_digits}
use ultron.Text.Radix.{value}
use ultron.BigNumber.{BigNumber}
use ultron.Utils.{
  Input, big, number, pad_left, pad_right, to_twos_complement, to_hex, from_utf8, to_utf8,
}

infixl 5 ◌>>=◌
abbrev ◌>>=◌ {ℓ κ} : {A : Type ℓ} {B : Type κ} → Option A → (A → Option B) → Option B
none >>= k = none
some a >>= k = k a

-- The offset is in bytes.
pub record SolidityParam : Type 0 where
  pub value : Text
  pub offset : Option ℕ

abbrev pub static_param : Text → SolidityParam
static_param value_ = record { value = value_; offset = none }

unfoldable pub with_offset : SolidityParam → ℕ → SolidityParam
with_offset p offset_ = record { value = p.value; offset = some offset_ }

unfoldable pub combine : SolidityParam → SolidityParam → SolidityParam
combine p q = static_param (p.value ++ q.value)

unfoldable pub is_dynamic : SolidityParam → Bool
is_dynamic p = elim p.offset [ none ↦ false | some n ↦ true ]

unfoldable pub dynamic_part : SolidityParam → Text
unfolding is_dynamic
dynamic_part p = if is_dynamic p then p.value else []

-- In bytes; the text holds two digits for each.
unfoldable pub dynamic_part_length : SolidityParam → ℕ
dynamic_part_length p = length (dynamic_part p) / 2

abbrev pub first_is_one : Text → Bool
first_is_one [] = false
first_is_one (c ∷ s) = c == b'1'

-- param.staticPart() || "0"
abbrev pub or_zero : Text → Text
or_zero [] = codes "0"
or_zero (c ∷ s) = c ∷ s

module _ (b : BigNumber) where
  open b use {Big, of_text, to_text, plus, minus, times, divided_by, to_number}

  -- padLeft(toTwosComplement(value).toString(16), 64)
  unfoldable pub word : Input Big → Option Text
  word value_ = pad_left (to_text 16 (to_twos_complement b value_)) 64 b'0'

  unfoldable pub offset_as_bytes : SolidityParam → Option Text
  offset_as_bytes p = elim p.offset [ none ↦ some [] | some n ↦ word (number (pos n)) ]

  unfoldable pub static_part : SolidityParam → Option Text
  unfolding is_dynamic
  static_part p = if is_dynamic p then offset_as_bytes p else some p.value

  unfoldable pub encode : SolidityParam → Option Text
  encode p = do s ← static_part p; some (s ++ dynamic_part p)

  -- Each dynamic param gets the next free place behind the heads.
  unfoldable pub place : ℕ → List SolidityParam → List SolidityParam
  place total_offset [] = []
  place total_offset (p ∷ ps) =
      (if is_dynamic p then with_offset p total_offset else p)
      ∷ place (if is_dynamic p then total_offset + dynamic_part_length p else total_offset) ps

  unfoldable pub static_parts : List SolidityParam → Option Text
  static_parts [] = some []
  static_parts (p ∷ ps) = do s ← static_part p; r ← static_parts ps; some (s ++ r)

  unfoldable pub dynamic_parts : List SolidityParam → Text
  dynamic_parts [] = []
  dynamic_parts (p ∷ ps) = dynamic_part p ++ dynamic_parts ps

  unfoldable pub encode_list : List SolidityParam → Option Text
  encode_list ps = do
    let placed = place (length ps * 32) ps
    s ← static_parts placed
    some (s ++ dynamic_parts placed)

  unfoldable pub format_input_int : Input Big → Option SolidityParam
  format_input_int value_ = Option.map static_param (word value_)

  -- Hexadecimal digits, filled up with zeros to whole words.
  unfoldable pub fill_words : Text → Option Text
  fill_words result = pad_right result ((length result + 63) / 64 * 64) b'0'

  -- The length in bytes as a word, then the bytes.
  unfoldable pub with_length : Text → Option SolidityParam
  with_length result = do
    l ← word (number (pos (length result / 2)))
    r ← fill_words result
    some (static_param (l ++ r))

  unfoldable pub format_input_bytes : (Text → Bool) → Input Big → Option SolidityParam
  format_input_bytes is_finite value_ =
      Option.map static_param (fill_words (drop 2 (to_hex b is_finite value_)))

  unfoldable pub format_input_dynamic_bytes : (Text → Bool) → Input Big → Option SolidityParam
  format_input_dynamic_bytes is_finite value_ = with_length (drop 2 (to_hex b is_finite value_))

  unfoldable pub format_input_string : (Text → Text) → Text → Option SolidityParam
  format_input_string utf8_encode value_ = with_length (drop 2 (from_utf8 utf8_encode value_))

  unfoldable pub format_input_bool : Bool → SolidityParam
  format_input_bool value_ =
      static_param (replicate 63 b'0' ++ (if value_ then codes "1" else codes "0"))

  -- new BigNumber(2).pow(128) is `unit`.
  unfoldable pub format_input_real : Big → Big → Option SolidityParam
  format_input_real unit value_ = format_input_int (big (times value_ unit))

  -- The first binary digit of the first hexadecimal digit, which is written without leading zeros.
  unfoldable pub signed_is_negative : Text → Bool
  signed_is_negative value_ = first_is_one (to_text 2 (of_text 16 (take 1 value_)))

  unfoldable pub signed_value : Text → Big
  signed_value value_ =
      if signed_is_negative value_
      then minus (minus (of_text 16 value_) (of_text 16 (replicate 64 b'f')))
          (of_text 10 (codes "1"))
      else of_text 16 value_

  unfoldable pub format_output_int : SolidityParam → Option Big
  format_output_int p = Option.map (λ s. signed_value (or_zero s)) (static_part p)

  unfoldable pub format_output_uint : SolidityParam → Option Big
  format_output_uint p = Option.map (λ s. of_text 16 (or_zero s)) (static_part p)

  unfoldable pub format_output_real : Big → SolidityParam → Option Big
  format_output_real unit p = Option.map (λ x. divided_by x unit) (format_output_int p)

  unfoldable pub format_output_ureal : Big → SolidityParam → Option Big
  format_output_ureal unit p = Option.map (λ x. divided_by x unit) (format_output_uint p)

  unfoldable pub format_output_bool : SolidityParam → Option Bool
  unfolding text_eq
  format_output_bool p =
      Option.map (λ s. text_eq s (replicate 63 b'0' ++ codes "1")) (static_part p)

  -- `name` begins with bytes and the size.
  unfoldable pub format_output_bytes : SolidityParam → Text → Option Text
  format_output_bytes p name =
      Option.map (λ s. codes "0x" ++ take (2 * value 10 (leading_digits (drop 5 name))) s)
        (static_part p)

  -- The part behind the length word, as long as the length says.
  abbrev pub counted : Text → Text
  counted s = substr s 64 (to_number (of_text 16 (take 64 s)) * 2)

  unfoldable pub format_output_dynamic_bytes : SolidityParam → Text
  format_output_dynamic_bytes p = codes "0x" ++ counted (dynamic_part p)

  unfoldable pub format_output_string : (Text → Text) → SolidityParam → Text
  format_output_string utf8_decode p = to_utf8 utf8_decode (counted (dynamic_part p))

  unfoldable pub format_output_address : SolidityParam → Option Text
  format_output_address p = Option.map (λ s. codes "0x" ++ take_last 40 s) (static_part p)
