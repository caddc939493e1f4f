-- ===== src/Messages/Tests.antt =====
-- Formatters at concrete values, with integers for big numbers.
use ultron.Prelude.{◌≡◌, refl, true, false, some, ◌++◌, replicate}
use ultron.Text.{Text, codes}
use ultron.BigNumber.Integers.{integers, integers-IsExact}
use ultron.Iban.{Iban, is_valid, from_address}
use ultron.Utils.Address.{is_strict_address, is_address}
use ultron.Value.{Fields, null, str, end, field}
use ultron.Messages.{Runtime, input_address, iban_of}
use ultron.Messages.Addresses.{input_address-from_address}

abbrev runtime : Runtime
runtime = record {
  big_number = integers;
  sha3 = λ t. replicate 64 b'f';
  utf8_encode = λ t. t;
  is_finite = λ t. true;
  stringify = λ v. codes "{}";
}

abbrev transaction : Fields runtime.big_number.Big
transaction =
    field (codes "blockNumber") null
      (field (codes "hash") (str (codes "0xab")) (field (codes "value") (str (codes "0x10")) end))

abbrev plain : Text
plain = codes "00c5496aee77c1ba1f0854206a26dda82a81d6d8"

plain_runs : input_address runtime (str plain) ≡ some (str (codes "0x" ++ plain))
unfolding input_address is_valid is_strict_address is_address
plain_runs = refl

plain_no_iban : is_valid 70 (iban_of plain) ≡ some false
unfolding is_valid
plain_no_iban = refl

input_address-from_address_example :
    (i : Iban) × (from_address integers 70 plain ≡ some i)
    × (input_address runtime (str i.iban) ≡ some (str (codes "0x" ++ plain)))
input_address-from_address_example =
    input_address-from_address runtime integers-IsExact plain refl refl
