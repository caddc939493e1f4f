-- ===== src/Utils/Address.antt =====
-- Addresses in utils.js of src/console/jsre/deps/web3.js: which texts are addresses, and the
-- capital letters that carry a checksum. `sha3` is a parameter: it comes from crypto-js. `none` is
-- an exception.
use ultron.Prelude.{
  ℕ, zero, suc, Bool, true, false, not, ◌&&◌, ◌||◌, Option, none, some, [], ◌∷◌, ◌++◌, map,
  if◌then◌else◌, ltb, leb, ◌==◌, length, drop, get_elem?,
}
use mathlib.Core.Option
use ultron.Text.{Text, codes, starts_with, to_upper, to_lower, is_digit, all}
use ultron.Text.Radix.{is_digit_of, digit_value}
use ultron.BigNumber.{BigNumber}
use ultron.Utils.{text, pad_left, to_hex}

-- [0-9a-f], [0-9A-F], and [0-9a-f] without regard to case
abbrev pub is_hex_lower : ℕ → Bool
is_hex_lower c = is_digit c || (leb b'a' c && leb c b'f')

abbrev pub is_hex_upper : ℕ → Bool
is_hex_upper c = is_digit c || (leb b'A' c && leb c b'F')

abbrev pub is_hex : ℕ → Bool
is_hex c = is_digit_of 16 c

-- ^[...]{40}$
abbrev pub is_forty : (ℕ → Bool) → Text → Bool
is_forty test s = length s == 40 && all test s

-- ^0x[0-9a-f]{40}$ without regard to case, which goes for the x too
unfoldable pub is_strict_address : Text → Bool
is_strict_address [] = false
is_strict_address (z ∷ []) = false
is_strict_address (z ∷ x ∷ s) = (z == b'0' && (x == b'x' || x == b'X')) && is_forty is_hex s

-- ^(0x)?[...]{40}$
abbrev pub has_address_form : (ℕ → Bool) → Text → Bool
has_address_form test s =
    is_forty test s || (starts_with (codes "0x") s && is_forty test (drop 2 s))

-- s.replace('0x', ''): the first occurrence goes.
unfoldable pub remove_0x : Text → Text
unfolding starts_with
remove_0x [] = []
remove_0x (c ∷ s) = if starts_with (codes "0x") (c ∷ s) then drop 1 s else c ∷ remove_0x s

-- parseInt(character, 16), `none` for NaN: a character that is none, or no digit.
abbrev pub nibble : Option ℕ → Option ℕ
nibble none = none
nibble (some c) = if is_digit_of 16 c then some (digit_value c) else none

-- parseInt(...) > 7 and parseInt(...) <= 7: both fail for NaN.
abbrev pub is_high : Option ℕ → Bool
is_high none = false
is_high (some v) = ltb 7 v

abbrev pub is_low : Option ℕ → Bool
is_low none = false
is_low (some v) = leb v 7

abbrev pub first : Text → Option ℕ
first s = get_elem? s 0

-- The loop over the rounds left, the rest of the hash and the rest of the address; `none` where a
-- character is compared that the address does not have.
unfoldable pub check_from : ℕ → Text → Text → Option Bool
unfolding to_upper to_lower
check_from zero hash address = some true
check_from (suc n) hash address =
    let rest = check_from n (drop 1 hash) (drop 1 address) in
    elim (first address) [
      | none ↦ if is_high (nibble (first hash)) || is_low (nibble (first hash)) then none else rest
      | some c ↦
          if (is_high (nibble (first hash)) && not (to_upper c == c))
            || (is_low (nibble (first hash)) && not (to_lower c == c))
          then some false
          else rest
    ]

-- The loop over the address.
unfoldable pub checksum_text : Text → Text → Text
unfolding to_upper
checksum_text hash [] = []
checksum_text hash (c ∷ s) =
    (if is_high (nibble (first hash)) then to_upper c else c) ∷ checksum_text (drop 1 hash) s

module _ (sha3 : Text → Text) where
  unfoldable pub is_checksum_address : Text → Option Bool
  unfolding remove_0x check_from to_lower
  is_checksum_address address =
      check_from 40 (sha3 (map to_lower (remove_0x address))) (remove_0x address)

  -- ^(0x)?[0-9a-f]{40}$ without regard to case is the form of a strict address, or forty digits.
  unfoldable pub is_address : Text → Option Bool
  unfolding is_strict_address
  is_address address =
      if not (is_forty is_hex address || is_strict_address address)
      then some false
      else if has_address_form is_hex_lower address || has_address_form is_hex_upper address
      then some true
      else is_checksum_address address

  -- `none` is undefined.
  unfoldable pub to_checksum_address : Option Text → Text
  unfolding remove_0x checksum_text to_lower
  to_checksum_address none = []
  to_checksum_address (some address) =
      let lower = remove_0x (map to_lower address) in codes "0x" ++ checksum_text (sha3 lower) lower

module _ (b : BigNumber) where
  unfoldable pub to_address : (Text → Bool) → Text → Option Text
  unfolding is_strict_address
  to_address is_finite address =
      if is_strict_address address
      then some address
      else if is_forty is_hex_lower address
      then some (codes "0x" ++ address)
      else Option.map (λ s. codes "0x" ++ s)
          (pad_left (drop 2 (to_hex b is_finite (text address))) 40 b'0')
