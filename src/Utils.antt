-- ===== src/Utils.antt =====
-- utils.js of src/console/jsre/deps/web3.js: padding, hexadecimal texts and numbers. `none` is an
-- exception. A JavaScript number is an integer here. Its children are the addresses and the units.
pub mod Address
pub mod Checksum
pub mod Units
pub mod Conversion
mod Tests
use ultron.Prelude.{
  ℕ, suc, ◌+◌, ◌-◌, Bool, true, false, not, ◌||◌, Option, none, some, List, [], ◌∷◌, ◌++◌, map,
  if◌then◌else◌, ltb, leb, ◌==◌, length, take, drop, replicate,
}
use mathlib.Core.Option
use ultron.Prelude.Int.{ℤ, pos}
use ultron.Text.{Text, codes, starts_with, contains, all}
use ultron.Text.Number.{int, number_text}
use ultron.Text.Radix.{digits, value, is_digit_of, digit_value}
use ultron.BigNumber.{BigNumber}

-- new Array(chars - length + 1).join(sign): an array has no negative length.
unfoldable pub pad_left : Text → ℕ → ℕ → Option Text
pad_left string chars sign =
    if leb (length string) (chars + 1)
    then some (replicate (chars - length string) sign ++ string)
    else none

unfoldable pub pad_right : Text → ℕ → ℕ → Option Text
pad_right string chars sign =
    if leb (length string) (chars + 1)
    then some (string ++ replicate (chars - length string) sign)
    else none

-- A character code in at least two hexadecimal digits.
unfoldable pub hex_code : ℕ → Text
hex_code c = let n = digits 16 c in if ltb (length n) 2 then b'0' ∷ n else n

unfoldable pub from_ascii_body : Text → Text
from_ascii_body [] = []
from_ascii_body (c ∷ s) = hex_code c ++ from_ascii_body s

unfoldable pub from_ascii : Text → Text
from_ascii str = codes "0x" ++ from_ascii_body str

-- parseInt(s, 16) of at most two characters, `none` for NaN. White space and signs, which parseInt
-- accepts in front, are left out.
unfoldable pub hex_pair : Text → Option ℕ
hex_pair [] = none
hex_pair (a ∷ s) =
    if is_digit_of 16 a
    then some (if all (is_digit_of 16) s then value 16 (a ∷ s) else digit_value a)
    else none

unfoldable pub hex_pairs : Text → List (Option ℕ)
hex_pairs [] = []
hex_pairs (a ∷ []) = hex_pair (a ∷ []) ∷ []
hex_pairs (a ∷ b ∷ s) = hex_pair (a ∷ b ∷ []) ∷ hex_pairs s

-- String.fromCharCode takes NaN as 0.
abbrev pub char_code : Option ℕ → ℕ
char_code none = 0
char_code (some c) = c

abbrev pub without_0x : Text → Text
without_0x s = if starts_with (codes "0x") s then drop 2 s else s

unfoldable pub to_ascii : Text → Text
to_ascii hex = map char_code (hex_pairs (without_0x hex))

unfoldable pub until_zero : Text → Text
until_zero [] = []
until_zero (c ∷ s) = if c == 0 then [] else c ∷ until_zero s

-- The loop stops at a code 0, not at NaN.
unfoldable pub codes_until_zero : List (Option ℕ) → Text
codes_until_zero [] = []
codes_until_zero (none ∷ cs) = 0 ∷ codes_until_zero cs
codes_until_zero (some c ∷ cs) = if c == 0 then [] else c ∷ codes_until_zero cs

-- `encode` and `decode` are those of the package utf8.
unfoldable pub from_utf8 : (Text → Text) → Text → Text
from_utf8 encode str = codes "0x" ++ from_ascii_body (until_zero (encode str))

unfoldable pub to_utf8 : (Text → Text) → Text → Text
to_utf8 decode hex = decode (codes_until_zero (hex_pairs (without_0x hex)))

-- name.indexOf('('), counted from the front; `none` is -1.
unfoldable pub index_of : ℕ → Text → Option ℕ
index_of c [] = none
index_of c (d ∷ s) = if d == c then some 0 else Option.map suc (index_of c s)

unfoldable pub extract_display_name : Text → Text
extract_display_name name = elim (index_of b'(' name) [ none ↦ name | some i ↦ take i name ]

abbrev remove_space : Text → Text
remove_space [] = []
remove_space (c ∷ s) = if c == b' ' then s else c ∷ remove_space s

-- Only the first space goes.
unfoldable pub extract_type_name : Text → Text
extract_type_name name = elim (index_of b'(' name) [
  | none ↦ []
  | some i ↦ remove_space (take (length name - 1 - (i + 1)) (drop (i + 1) name))
]

abbrev pub join : List Text → Text
join [] = []
join (t ∷ []) = t
join (t ∷ u ∷ ts) = t ++ b',' ∷ join (u ∷ ts)

-- The name and the types of the inputs of a function or an event.
unfoldable pub transform_to_full_name : Text → List Text → Text
transform_to_full_name name types =
    if contains (codes "(") name then name else name ++ b'(' ∷ (join types ++ codes ")")

-- What is given for a number.
pub data Input (Big : Type 0) : Type 0 where
  big : Big → Input Big
  number : ℤ → Input Big
  text : Text → Input Big
  boolean : Bool → Input Big

module _ (b : BigNumber) where
  open b use {Big, of_text, to_text, plus, times, divided_by, round, is_negative}

  -- number.replace('0x', '') where the text begins with 0x or -0x
  abbrev of_hex : Text → Big
  of_hex s =
      if starts_with (codes "0x") s then of_text 16 (drop 2 s) else of_text 16 (b'-' ∷ drop 3 s)

  unfoldable pub to_big_number : Input Big → Big
  to_big_number (big x) = x
  to_big_number (number z) = of_text 10 (number_text (int z))
  to_big_number (text []) = of_text 10 (codes "0")
  to_big_number (text (c ∷ s)) =
      if starts_with (codes "0x") (c ∷ s) || starts_with (codes "-0x") (c ∷ s)
      then of_hex (c ∷ s)
      else of_text 10 (c ∷ s)
  to_big_number (boolean true) = of_text 10 (codes "true")
  to_big_number (boolean false) = of_text 10 (codes "0")

  unfoldable pub to_twos_complement : Input Big → Big
  to_twos_complement value_ =
      let big_number = round (to_big_number value_) in
      if is_negative big_number
      then plus (plus (of_text 16 (replicate 64 b'f')) big_number) (of_text 10 (codes "1"))
      else big_number

  unfoldable pub from_decimal : Input Big → Text
  from_decimal value_ =
      let result = to_text 16 (to_big_number value_) in
      if is_negative (to_big_number value_)
      then codes "-0x" ++ drop 1 result
      else codes "0x" ++ result

  -- `is_finite` is isFinite of a text. Objects other than big numbers are left out.
  unfoldable pub to_hex : (Text → Bool) → Input Big → Text
  to_hex is_finite (boolean true) = from_decimal (number (pos 1))
  to_hex is_finite (boolean false) = from_decimal (number (pos 0))
  to_hex is_finite (big x) = from_decimal (big x)
  to_hex is_finite (number z) = from_decimal (number z)
  to_hex is_finite (text s) =
      if starts_with (codes "-0x") s
      then from_decimal (text s)
      else if starts_with (codes "0x") s
      then s
      else if not (is_finite s)
      then from_ascii s
      else from_decimal (text s)
