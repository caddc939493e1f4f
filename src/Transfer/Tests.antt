-- ===== src/Transfer/Tests.antt =====
-- A transfer to an address and one to the client of an institution.
use ultron.Prelude.{◌≡◌, refl, true, none, some, [], ◌∷◌, arith, replicate}
use ultron.Prelude.Int.{ℤ, pos}
use ultron.Text.{Text, codes, text_eq}
use ultron.BigNumber.Integers.{integers}
use ultron.Iban.{Iban, is_valid, create_indirect}
use ultron.Manager.Invariant.{initial}
use ultron.Value.{str, num, obj, field, end}
use ultron.Method.{
  Prepared, ready, to_payload, extract_callback, get_call, format_input, validate_args,
}
use ultron.Messages.{Runtime, settings, input_transaction, input_address, to_input}
use ultron.Utils.{from_decimal, to_big_number}
use ultron.Utils.Address.{is_strict_address, is_address}
use ultron.Text.Radix.{digits, value, value_from}
use ultron.Methods.Actions.{send_transaction}
use ultron.Transfer.{
  transaction_to, or_undefined, lacks_to, to_payload-transaction_to, transfer, deposit,
}
use ultron.Transfer.Institutions.{transfer-create_indirect}

abbrev runtime : Runtime
runtime = record {
  big_number = integers;
  sha3 = λ t. replicate 64 b'f';
  utf8_encode = λ t. t;
  is_finite = λ t. true;
  stringify = λ v. codes "{}";
}

abbrev payer : Text
payer = codes "00c5496aee77c1ba1f0854206a26dda82a81d6d8"

abbrev payload : Prepared ℤ
payload = record {
  method = codes "eth_sendTransaction";
  params =
      obj (
        field (codes "address") (str (codes "0x05")) (
          field (codes "from") (str (codes "0x00c5496aee77c1ba1f0854206a26dda82a81d6d8"))
            (field (codes "value") (str (codes "0x3")) end)))
      ∷ [];
  callback = some 2;
}

prepared_runs :
    (to_payload (send_transaction runtime settings) (
      transaction_to runtime settings (str payer) (codes "0x05") (num (pos 3))
      ∷ or_undefined (some 2)
      ∷ [])).1
    ≡ ready payload
unfolding to_payload extract_callback get_call format_input validate_args input_transaction
    transaction_to input_address text_eq is_valid is_strict_address is_address from_decimal
    to_big_number to_input digits value value_from
prepared_runs = refl

to_payload-transaction_to_example : lacks_to payload.params ≡ true
to_payload-transaction_to_example =
    to_payload-transaction_to runtime settings (str payer) (codes "0x05") (num (pos 3)) (some 2)
      payload prepared_runs

transfer-create_indirect_example :
    (i : Iban) × (create_indirect 38 (codes "XREG") (codes "GAVOFYORK") ≡ some i)
    × (transfer runtime settings (initial none) 38 (str payer) i.iban (num (pos 3)) none
        ≡ some (deposit (codes "XREG") (codes "GAVOFYORK") (str payer) (num (pos 3)) none))
transfer-create_indirect_example =
    transfer-create_indirect runtime settings (initial none) 38 (str payer) (num (pos 3)) none
      (codes "XREG") (codes "GAVOFYORK") refl refl refl refl (omega arith)
