-- ===== src/Coder.antt =====
-- solidity/coder.js of src/console/jsre/deps/web3.js, with encode and decode of solidity/type.js:
-- parameters of calls to words of 64 hexadecimal digits and back. `none` is an exception. An offset is
-- `none` where it is no number, or comes from a text that is divided by two; the latter is used only
-- for arrays nested three deep. Numbers keep their value above 2 ^ 53, where doubles round.
pub mod Encode
pub mod Decode
pub mod Layout
pub mod Items
pub mod Arrays
pub mod Texts
pub mod Samples
pub mod Params
pub mod RoundTrip
pub mod Disagreement
mod Tests
pub mod Reading
use ultron.Prelude.{
  ℕ, zero, suc, ◌+◌, ◌-◌, ◌*◌, ◌/◌, ◌^◌, Bool, true, false, Option, none, some, List, [], ◌∷◌, ◌++◌,
  if◌then◌else◌, length, get_elem?, drop, ◌==◌,
}
use mathlib.Core.Option
use ultron.Prelude.Int.{pos}
use ultron.Text.{Text, codes, substr, is_digit, all}
use ultron.Text.Number.{number_text, int}
use ultron.Text.Radix.{value, is_digit_of, digits}
use ultron.Utils.{number}
use ultron.Value.{
  Value, Values, undefined, null, bool, num, str, big, function, arr, obj, nil, cons, get, items,
  truthy,
}
use ultron.Messages.{Runtime, to_input, to_hex_value, ◌>>=◌}
use ultron.Abi
use ultron.Abi.{
  Kind, nested_name, is_dynamic_array, is_static_array, static_array_length, static_part_length,
  nested_types, is_dynamic, is_dynamic_type, require_type,
}
use ultron.Formatters.{
  SolidityParam, word, static_param, with_length, fill_words, format_input_int, format_input_bool,
  format_input_string, format_input_real, format_output_address, format_output_bool,
  format_output_int, format_output_uint, format_output_dynamic_bytes, format_output_bytes,
  format_output_string, format_output_real, format_output_ureal,
}

-- Other projects' code: that of a Runtime, the decoder of utf8, and new BigNumber(2).pow(128).
pub record Libraries : Type 1 where
  pub runtime : Runtime
  pub utf8_decode : Text → Text
  pub unit : runtime.big_number.Big

-- What encode gives: a text, or an array of such.
mutual
  pub data Encoded : Type 0 where
    text : Text → Encoded
    list : Encodeds → Encoded

  pub data Encodeds : Type 0 where
    empty : Encodeds
    next : Encoded → Encodeds → Encodeds

-- +text || 0, for a text of hexadecimal digits: decimal, with an exponent or without.
abbrev pub before_e : Text → Text
before_e [] = []
before_e (c ∷ s) = if c == b'e' then [] else c ∷ before_e s

abbrev pub number_of_parts : Text → Text → ℕ
number_of_parts mantissa [] = if all is_digit mantissa then value 10 mantissa else 0
number_of_parts [] (e ∷ exponent) = 0
number_of_parts (c ∷ mantissa) (e ∷ []) = 0
number_of_parts (c ∷ mantissa) (e ∷ d ∷ exponent) =
    if all is_digit (c ∷ mantissa)
    then if all is_digit (d ∷ exponent)
      then value 10 (c ∷ mantissa) * 10 ^ value 10 (d ∷ exponent)
      else 0
    else 0

unfoldable pub number_of_text : Text → ℕ
unfolding value
number_of_text s = number_of_parts (before_e s) (drop (length (before_e s)) s)

-- +encoded[0] || 0; the first character of a text.
unfoldable pub first_number : Encoded → ℕ
unfolding number_of_text
first_number (text []) = 0
first_number (text (c ∷ s)) = number_of_text (c ∷ [])
first_number (list empty) = 0
first_number (list (next (text s) rest)) = number_of_text s
first_number (list (next (list es) rest)) = 0

-- parseInt('0x' + s), `none` for NaN.
abbrev pub hex_prefix : Text → Text
hex_prefix [] = []
hex_prefix (c ∷ s) = if is_digit_of 16 c then c ∷ hex_prefix s else []

unfoldable pub number_or_nan : Text → Option ℕ
unfolding value
number_or_nan [] = none
number_or_nan (c ∷ s) = some (value 16 (c ∷ s))

unfoldable pub read_number : Text → Option ℕ
unfolding number_or_nan
read_number s = number_or_nan (hex_prefix s)

-- Where substr starts: NaN counts as 0.
abbrev pub start_at : Option ℕ → ℕ
start_at none = 0
start_at (some n) = n

abbrev pub add_to : Option ℕ → ℕ → Option ℕ
add_to none n = none
add_to (some m) n = some (m + n)

-- Math.floor((n + 31) / 32)
abbrev pub words_of : ℕ → ℕ
words_of n = (n + 31) / 32

-- Math.floor((n + 31) / 32) * 32
abbrev pub rounded : ℕ → ℕ
rounded n = words_of n * 32

-- The brackets of a name, and the name itself.
unfoldable pub depth_of : Text → ℕ
unfolding nested_types
depth_of name = suc (length (nested_types name))

module _ (lib : Libraries) where
  open lib use {runtime, utf8_decode, unit}
  open lib.runtime use {big_number, utf8_encode}
  open lib.runtime.big_number use {Big, of_text}

  -- new BigNumber(value)
  abbrev pub new_big : Value Big → Big
  unfolding number_text
  new_big (big x) = x
  new_big (num z) = of_text 10 (number_text (int z))
  new_big (str s) = of_text 10 s
  new_big (bool true) = of_text 10 (codes "true")
  new_big (bool false) = of_text 10 (codes "false")
  new_big undefined = of_text 10 (codes "undefined")
  new_big null = of_text 10 (codes "null")
  new_big _ = of_text 10 (codes "NaN")

  -- What utf8.encode reads: it takes the length of its argument, and the codes of its characters.
  abbrev pub characters : Value Big → Option Text
  characters (str s) = some s
  characters undefined = none
  characters null = none
  characters (arr (cons v vs)) = none
  characters _ = some []

  -- this._inputFormatter(value, name)
  unfoldable pub input_formatter : Kind → Value Big → Option SolidityParam
  unfolding truthy to_input to_hex_value
  input_formatter Abi.address v = format_input_int big_number (to_input runtime v)
  input_formatter Abi.bool v = some (format_input_bool big_number (truthy v))
  input_formatter Abi.int v = format_input_int big_number (to_input runtime v)
  input_formatter Abi.uint v = format_input_int big_number (to_input runtime v)
  input_formatter Abi.dynamic_bytes v = with_length big_number (drop 2 (to_hex_value runtime v))
  input_formatter Abi.bytes v =
      Option.map static_param (fill_words big_number (drop 2 (to_hex_value runtime v)))
  input_formatter Abi.string v = do s ← characters v; format_input_string big_number utf8_encode s
  input_formatter Abi.real v = format_input_real big_number unit (new_big v)
  input_formatter Abi.ureal v = format_input_real big_number unit (new_big v)

  -- this._outputFormatter(param, name)
  unfoldable pub output_formatter : Kind → SolidityParam → Text → Option (Value Big)
  output_formatter Abi.address p name = Option.map str (format_output_address big_number p)
  output_formatter Abi.bool p name = Option.map bool (format_output_bool big_number p)
  output_formatter Abi.int p name = Option.map big (format_output_int big_number p)
  output_formatter Abi.uint p name = Option.map big (format_output_uint big_number p)
  output_formatter Abi.dynamic_bytes p name = some (str (format_output_dynamic_bytes big_number p))
  output_formatter Abi.bytes p name = Option.map str (format_output_bytes big_number p name)
  output_formatter Abi.string p name = some (str (format_output_string big_number utf8_decode p))
  output_formatter Abi.real p name = Option.map big (format_output_real big_number unit p)
  output_formatter Abi.ureal p name = Option.map big (format_output_ureal big_number unit p)
