-- ===== src/Iban.antt =====
-- Iban of src/console/jsre/deps/web3.js: bank account numbers of the scheme XE, which wrap an
-- address (direct, in base 36) or an institution with a client (indirect).
pub mod Mod97
pub mod Checksum
pub mod Validity
pub mod Detection
pub mod Direct
pub mod Runaway
mod Tests
use ultron.Prelude.{
  ℕ, zero, suc, ◌+◌, ◌-◌, ◌*◌, Bool, true, false, ◌&&◌, ◌||◌, Option, none, some, List, [], ◌∷◌,
  ◌++◌, map, if◌then◌else◌, ltb, leb, ◌==◌, length, take, drop, replicate,
}
use mathlib.Core.List.{flat_map}
use ultron.Prelude.Int.{pos, negsuc, ◌-ℤ◌}
use ultron.Text.{
  Text, codes, text_eq, starts_with, substr, take_last, is_digit, is_upper, to_upper, all,
}
use ultron.Text.Number.{Number, nan, int, parse_int, remainder, number_text}
use ultron.BigNumber.{BigNumber}

-- The object holds its text only.
pub record Iban : Type 0 where
  pub iban : Text

-- The loop adds a zero until there are `bytes * 2` characters.
unfoldable pub pad_left : Text → ℕ → Text
pad_left string bytes = replicate (bytes * 2 - length string) b'0' ++ string

-- A = 10, ..., Z = 35; any other character stays.
unfoldable pub letter_text : ℕ → Text
unfolding number_text
letter_text n = if is_upper n then number_text (int (pos (n - b'A' + 10))) else n ∷ []

unfoldable pub iso13616_prepare : Text → Text
unfolding letter_text to_upper
iso13616_prepare iban =
    let upper = map to_upper iban in flat_map letter_text (drop 4 upper ++ take 4 upper)

-- The `while` loop on fuel: `none` means that it ran out.
unfoldable pub mod9710 : ℕ → Text → Option Number
unfolding parse_int number_text
mod9710 zero text = none
mod9710 (suc fuel) text =
    let block = take 9 text in
    let shorter = number_text (remainder (parse_int block) 97) ++ drop (length block) text in
    let rest = mod9710 fuel shorter in
    if ltb 2 (length text) then rest else some (remainder (parse_int text) 97)

-- 98 - remainder
abbrev pub complement_98 : Number → Number
complement_98 nan = nan
complement_98 (int r) = int (pos 98 -ℤ r)

unfoldable pub check_digits : Number → Text
unfolding number_text ◌-ℤ◌
check_digits r = take_last 2 (b'0' ∷ number_text (complement_98 r))

infixl 5 ◌>>=◌
abbrev ◌>>=◌ {ℓ κ} : {A : Type ℓ} {B : Type κ} → Option A → (A → Option B) → Option B
none >>= k = none
some a >>= k = k a

unfoldable pub from_bban : ℕ → Text → Option Iban
unfolding mod9710 iso13616_prepare check_digits
from_bban fuel bban = do
  r ← mod9710 fuel (iso13616_prepare (codes "XE" ++ (codes "00" ++ bban)))
  some (record { iban = codes "XE" ++ (check_digits r ++ bban) })

unfoldable pub create_indirect : ℕ → Text → Text → Option Iban
create_indirect fuel institution identifier =
    from_bban fuel (codes "ETH" ++ (institution ++ identifier))

abbrev pub is_alphanumeric : ℕ → Bool
is_alphanumeric c = is_digit c || is_upper c

-- ETH[0-9A-Z]{13}|[0-9A-Z]{30,31}
unfoldable pub is_bban : Text → Bool
unfolding starts_with
is_bban s =
    (starts_with (codes "ETH") s && length (drop 3 s) == 13 && all is_alphanumeric (drop 3 s))
    || (all is_alphanumeric s && (length s == 30 || length s == 31))

-- /^XE[0-9]{2}(ETH[0-9A-Z]{13}|[0-9A-Z]{30,31})$/
unfoldable pub has_iban_form : Text → Bool
unfolding is_bban starts_with
has_iban_form s =
    starts_with (codes "XE") s
    && length (substr s 2 2) == 2
    && all is_digit (substr s 2 2)
    && is_bban (drop 4 s)

abbrev is_one : Number → Bool
is_one (int (pos n)) = n == 1
is_one _ = false

-- The checksum is computed only for a text of the form.
unfoldable pub is_valid : ℕ → Iban → Option Bool
unfolding mod9710 iso13616_prepare has_iban_form
is_valid fuel i =
    let checked = mod9710 fuel (iso13616_prepare i.iban) >>= λ r. some (is_one r) in
    if has_iban_form i.iban then checked else some false

unfoldable pub is_direct : Iban → Bool
is_direct i = length i.iban == 34 || length i.iban == 35

unfoldable pub is_indirect : Iban → Bool
is_indirect i = length i.iban == 20

unfoldable pub checksum : Iban → Text
checksum i = substr i.iban 2 2

unfoldable pub institution : Iban → Text
institution i = if is_indirect i then substr i.iban 7 4 else []

unfoldable pub client : Iban → Text
client i = if is_indirect i then drop 11 i.iban else []

module _ (b : BigNumber) where
  open b use {of_text, to_text}

  unfoldable pub from_address : ℕ → Text → Option Iban
  from_address fuel address =
      from_bban fuel (map to_upper (pad_left (to_text 36 (of_text 16 address)) 15))

  unfoldable pub address : Iban → Text
  address i = if is_direct i then pad_left (to_text 16 (of_text 36 (drop 4 i.iban))) 20 else []
