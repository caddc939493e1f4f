-- ===== src/Function/Payable.antt =====
-- payload.value > 0, as sendTransaction of function.js in src/console/jsre/deps/web3.js asks it.
use ultron.Prelude.{
  Bool, true, false, not, ◌&&◌, ◌||◌, [], ◌∷◌, if◌then◌else◌, ltb, ◌==◌, drop, length,
}
use ultron.Prelude.Int.{pos, negsuc}
use ultron.Text.{Text, codes, text_eq, all, is_digit, starts_with}
use ultron.Text.Radix.{is_digit_of}
use ultron.Value.{Value, num, str, big, bool}
use ultron.BigNumber.{BigNumber}

-- A digit that is not 0.
abbrev has_one : Text → Bool
has_one [] = false
has_one (c ∷ s) = not (c == b'0') || has_one s

abbrev is_empty : Text → Bool
is_empty [] = true
is_empty (c ∷ s) = false

-- The part before an exponent, and the exponent with its e.
abbrev mantissa : Text → Text
mantissa [] = []
mantissa (c ∷ s) = if c == b'e' || c == b'E' then [] else c ∷ mantissa s

abbrev without_sign : Text → Text
without_sign [] = []
without_sign (c ∷ s) = if c == b'+' || c == b'-' then s else c ∷ s

abbrev without_plus : Text → Text
without_plus [] = []
without_plus (c ∷ s) = if c == b'+' then s else c ∷ s

abbrev are_digits : Text → Bool
are_digits s = not (is_empty s) && all is_digit s

abbrev is_exponent : Text → Bool
is_exponent [] = true
is_exponent (c ∷ s) = are_digits (without_sign s)

-- Only the first point goes.
abbrev without_point : Text → Text
without_point [] = []
without_point (c ∷ s) = if c == b'.' then s else c ∷ without_point s

abbrev is_decimal : Text → Bool
is_decimal s =
    are_digits (without_point (mantissa s))
    && has_one (without_point (mantissa s))
    && is_exponent (drop (length (mantissa s)) s)

-- A text counts as the number of the decimal or hexadecimal numeral that it is, here without white
-- space around it, and with no exponent that leads out of the range of doubles.
abbrev is_hexadecimal : Text → Bool
is_hexadecimal s = not (is_empty s) && all (is_digit_of 16) s && has_one s

abbrev starts_hexadecimal : Text → Bool
starts_hexadecimal s = starts_with (codes "0x") s || starts_with (codes "0X") s

unfoldable pub is_positive_text : Text → Bool
unfolding starts_with
is_positive_text s =
    if starts_hexadecimal s
    then is_hexadecimal (drop 2 s)
    else is_decimal (without_plus s) || text_eq (without_plus s) (codes "Infinity")

-- Arrays are left out.
unfoldable pub is_positive : (b : BigNumber) → Value b.Big → Bool
unfolding is_positive_text
is_positive b (bool t) = t
is_positive b (num (pos n)) = ltb 0 n
is_positive b (num (negsuc n)) = false
is_positive b (str s) = is_positive_text s
is_positive b (big x) = is_positive_text (b.to_text 10 x)
is_positive b v = false
