-- ===== src/Transfer.antt =====
-- transfer.js of src/console/jsre/deps/web3.js: funds go to an IBAN, either by a transaction or by a
-- deposit at the address that the register of names has for the institution. The register and the
-- deposit are contracts; what they are asked is the outcome here.
pub mod Institutions
mod Tests
use ultron.Prelude.{
  ℕ, ◌≡◌, refl, sym, ap, ◌∙◌, Bool, true, false, Option, none, some, List, [], ◌∷◌, arith,
  if◌then◌else◌, Bool-cases, Option-cases, inl, inr,
}
use ultron.Text.{Text, codes, text_eq}
use ultron.Manager.{Manager}
use ultron.Iban
use ultron.Iban.{Iban}
use ultron.Value.{
  Value, Fields, str, obj, function, end, field, get, put, undefined, is_undefined, truthy,
}
use ultron.Method.{
  Method, Invoked, invoke, to_payload, Prepared, Attempt, ready, checked, cons_both,
  extract_callback, get_call, format_input, validate_args,
}
use ultron.Messages.{
  Runtime, Config, iban_of, input_transaction, input_address, address_key, decimal_keys, sender,
}
use ultron.Methods.Actions.{send_transaction}

-- What a transfer does.
pub data Outcome (Big : Type 0) : Type 0 where
  -- The error for an invalid IBAN.
  invalid_iban : Outcome Big
  sent : Manager → Invoked Big → Outcome Big
  -- The institution that the register is asked for, and the client, sender, value and callback of
  -- the deposit at the address that it answers.
  deposit : Text → Text → Value Big → Value Big → Option ℕ → Outcome Big

-- callback, as an argument
abbrev pub or_undefined : {Big : Type 0} → Option ℕ → Value Big
or_undefined none = undefined
or_undefined (some f) = function f

-- A payload of one object without a `to`.
abbrev pub lacks_to : {Big : Type 0} → List (Value Big) → Bool
unfolding get
lacks_to (obj fs ∷ []) = is_undefined (get (codes "to") fs)
lacks_to _ = false

module _ (rt : Runtime) (config : Config rt.big_number.Big) where
  open rt.big_number use {Big, to_text}

  -- The transaction of transferToAddress.
  unfoldable pub transaction_to : Value Big → Text → Value Big → Value Big
  transaction_to from to value = obj (
      field (codes "address") (str to)
        (field (codes "from") from (field (codes "value") value end)))

  unfoldable pub transfer_to_address :
      Manager → Value Big → Text → Value Big → Option ℕ → Outcome Big
  unfolding transaction_to
  transfer_to_address rm from to value callback =
      let result =
        invoke (to_text 10) rm (send_transaction rt config)
          (transaction_to from to value ∷ or_undefined callback ∷ []) in
      sent result.0 result.2

  unfoldable pub by_kind : Manager → Value Big → Iban → Value Big → Option ℕ → Outcome Big
  unfolding transfer_to_address
  by_kind rm from iban value callback =
      if Iban.is_direct iban
      then transfer_to_address rm from (Iban.address rt.big_number iban) value callback
      else deposit (Iban.institution iban) (Iban.client iban) from value callback

  -- `none` is a check of the IBAN that runs out of fuel.
  unfoldable pub transfer :
      Manager → ℕ → Value Big → Text → Value Big → Option ℕ → Option (Outcome Big)
  unfolding by_kind
  transfer rm fuel from to value callback = elim (Iban.is_valid fuel (iban_of to)) [
    | none ↦ none
    | some valid ↦
        some (if valid then by_kind rm from (iban_of to) value callback else invalid_iban)
  ]

  abbrev formatted_fits : Option (Value Big) → Bool
  formatted_fits none = true
  formatted_fits (some v) = lacks_to (v ∷ [])

  abbrev payload_fits : Attempt (Prepared Big) → Bool
  payload_fits (ready p) = lacks_to p.params
  payload_fits _ = true

  input_transaction-fits :
      (from : Value Big) (to : Text) (value : Value Big)
      → formatted_fits (input_transaction rt config (transaction_to from to value)) ≡ true
  unfolding transaction_to input_transaction address_key decimal_keys text_eq truthy get put sender
  input_transaction-fits from to value =
      elim (Option-cases
        (input_address rt (if truthy from then from else config.default_account))) [
          | inl n ↦ rw n refl
          | inr (a, e) ↦ elim (Bool-cases (is_undefined value)) [
            | inl u ↦ rw (e, u) refl
            | inr d ↦ rw (e, d) refl
          ]
        ]

  checked-fits :
      (method : Text) (callback : Option ℕ) (o : Option (Value Big))
      → formatted_fits o ≡ true
      → payload_fits (checked method callback 1 (cons_both o (some []))) ≡ true
  unfolding validate_args
  checked-fits method callback none h = refl
  checked-fits method callback (some v) h = h

  to_payload-fits :
      (from : Value Big) (to : Text) (value : Value Big) (callback : Option ℕ)
      → payload_fits
          (to_payload
            (send_transaction rt config)
            (transaction_to from to value ∷ or_undefined callback ∷ [])).1
        ≡ true
  unfolding to_payload extract_callback get_call format_input
  to_payload-fits from to value none =
      checked-fits _ none (input_transaction rt config (transaction_to from to value))
        (input_transaction-fits from to value)
  to_payload-fits from to value (some f) =
      checked-fits _ (some f) (input_transaction rt config (transaction_to from to value))
        (input_transaction-fits from to value)

  -- The payload of a transfer to an address has no `to`, as that of a transaction which creates a
  -- contract, whatever the address.
  pub to_payload-transaction_to :
      (from : Value Big) (to : Text) (value : Value Big) (callback : Option ℕ) (p : Prepared Big)
      → (to_payload
          (send_transaction rt config)
          (transaction_to from to value ∷ or_undefined callback ∷ [])).1
        ≡ ready p
      → lacks_to p.params ≡ true
  to_payload-transaction_to from to value callback p h =
      sym (ap payload_fits h) ∙ to_payload-fits from to value callback
