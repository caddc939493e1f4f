-- ===== src/Iban/Tests.antt =====
-- Numbers of the documentation of the scheme run through the model, and the theorems at them.
use mathlib.Core.List.{flat_map}
use ultron.Prelude.{◌%◌, ◌≡◌, refl, Bool, true, false, some, none, arith, drop, inr}
use ultron.Prelude.Int.{pos}
use ultron.Text.{Text, codes}
use ultron.Text.Radix.{value, value_from, digits}
use ultron.Text.Number.{int}
use ultron.BigNumber.Integers.{integers, integers-IsExact}
use ultron.Iban.{
  Iban, mod9710, from_bban, create_indirect, is_bban, is_valid, is_direct, is_indirect, institution,
  client, from_address, address, pad_left,
}
use ultron.Iban.Mod97.{mod9710-digits}
use ultron.Iban.Validity.{is_valid-from_bban, is_valid_total, create_indirect_lem}
use ultron.Iban.Detection.{later_character, is_valid-substitution}
use ultron.Iban.Direct.{address-from_address}
use ultron.Iban.Runaway.{from_bban-none}

abbrev sample : Text
sample = codes "ETHXREGGAVOFYORK"

abbrev sample_iban : Iban
sample_iban = record { iban = codes "XE81ETHXREGGAVOFYORK" }

from_bban_runs : from_bban 38 sample ≡ some sample_iban
unfolding from_bban digits flat_map value value_from
from_bban_runs = refl

is_valid_runs :
    (is_valid 40 sample_iban ≡ some true)
    × (is_valid 40 (record { iban = codes "XE82ETHXREGGAVOFYORK" }) ≡ some false)
    × (is_valid 0 (record { iban = codes "DE81ETHXREGGAVOFYORK" }) ≡ some false)
unfolding is_valid digits flat_map value value_from
is_valid_runs = (refl, refl, refl)

address_runs :
    address integers (record { iban = codes "XE7338O073KYGTWWZN0F2WZ0R8PX5ZPPZS" })
    ≡ codes "00c5496aee77c1ba1f0854206a26dda82a81d6d8"
unfolding address is_direct pad_left digits value value_from
address_runs = refl

mod9710-digits_example :
    mod9710 30 (codes "123456789012345678901234567890")
    ≡ some (int (pos (value 10 (codes "123456789012345678901234567890") % 97)))
mod9710-digits_example =
    mod9710-digits 30 (codes "123456789012345678901234567890") (omega arith) (omega arith) refl

is_valid-from_bban_example :
    (i : Iban) × (from_bban 38 sample ≡ some i)
    × (is_valid 38 i ≡ some true)
    × (drop 4 i.iban ≡ sample)
unfolding is_bban
is_valid-from_bban_example = is_valid-from_bban 38 sample refl (omega arith)

is_valid_total_example : (v : Bool) × (is_valid 40 sample_iban ≡ some v)
is_valid_total_example = is_valid_total 40 sample_iban (omega arith)

create_indirect_example :
    (i : Iban) × (create_indirect 38 (codes "XREG") (codes "GAVOFYORK") ≡ some i)
    × (is_valid 38 i ≡ some true)
    × (is_indirect i ≡ true)
    × (institution i ≡ codes "XREG")
    × (client i ≡ codes "GAVOFYORK")
create_indirect_example =
    create_indirect_lem 38 (codes "XREG") (codes "GAVOFYORK") refl refl refl refl (omega arith)

sample_is_valid : is_valid 38 sample_iban ≡ some true
unfolding is_valid digits flat_map value value_from
sample_is_valid = refl

is_valid-substitution_example : codes "81ETHXREGGAVOFYORK" ≡ codes "81ETHXREGGAVOFYORK"
is_valid-substitution_example =
    is_valid-substitution 38 (codes "81ETHXREGGAVOFYORK") (codes "81ETHXREGGAVOFYORK")
      (later_character b'8' b'1' b'G' b'G' (codes "ETHXREG") (codes "AVOFYORK") refl refl
        (inr (refl, refl)))
      (omega arith) sample_is_valid sample_is_valid

abbrev sample_address : Text
sample_address = codes "00c5496aee77c1ba1f0854206a26dda82a81d6d8"

address-from_address_example :
    (i : Iban) × (from_address integers 68 sample_address ≡ some i)
    × (is_valid 68 i ≡ some true)
    × (is_direct i ≡ true)
    × (address integers i ≡ sample_address)
address-from_address_example =
    address-from_address integers integers-IsExact 68 sample_address refl refl (omega arith)

from_bban-none_example : from_bban 1000 (codes "#ETH") ≡ none
from_bban-none_example = from_bban-none 1000 b'#' (codes "ETH") refl
