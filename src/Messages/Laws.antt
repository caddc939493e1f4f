-- ===== src/Messages/Laws.antt =====
-- What the formatters of formatters.js in src/console/jsre/deps/web3.js do to each property of an
-- object.
use ultron.Prelude.{◌≡◌, refl, some, ◌||◌, arith, if◌then◌else◌}
use ultron.Text.{Text, codes, text_eq, text_eq_iff}
use ultron.Value.{Value, Fields, obj, get, is_null}
use ultron.Value.Objects.{get-put}
use ultron.Messages.{Runtime, to_decimal, to_big}
use ultron.Messages.Outputs.{
  decimal, decimal_unless_null, big_key, transaction_fields, output_transaction,
}

module _ (rt : Runtime) where
  open rt.big_number use {Big}

  -- A property that is converted, unless it is null.
  abbrev pub unless_null : Value Big → Value Big
  unless_null v = if is_null v then v else to_decimal rt v

  get-decimal :
      (key j : Text) (fs : Fields Big)
      → get j (decimal rt key fs) ≡ (if text_eq key j then to_decimal rt (get j fs) else get j fs)
  unfolding decimal
  get-decimal key j fs =
      ground (arith, get-put key j (to_decimal rt (get key fs)) fs, text_eq_iff key j)

  get-big :
      (key j : Text) (fs : Fields Big)
      → get j (big_key rt key fs) ≡ (if text_eq key j then to_big rt (get j fs) else get j fs)
  unfolding big_key
  get-big key j fs = ground (arith, get-put key j (to_big rt (get key fs)) fs, text_eq_iff key j)

  get-unless_null :
      (key j : Text) (fs : Fields Big)
      → get j (decimal_unless_null rt key fs)
        ≡ (if text_eq key j then unless_null (get j fs) else get j fs)
  unfolding decimal_unless_null decimal
  get-unless_null key j fs =
      ground (arith, get-put key j (to_decimal rt (get key fs)) fs, text_eq_iff key j)

  -- What becomes of the property `j` of a transaction.
  abbrev pub transaction_property : Text → Value Big → Value Big
  transaction_property j v =
      if text_eq (codes "blockNumber") j || text_eq (codes "transactionIndex") j
      then unless_null v
      else if text_eq (codes "nonce") j || text_eq (codes "gas") j
      then to_decimal rt v
      else if text_eq (codes "gasPrice") j || text_eq (codes "value") j
      then to_big rt v
      else v

  -- The six keys are different, so at most one test passes.
  one_key :
      (j : Text) (v : Value Big)
      → (let a = if text_eq (codes "blockNumber") j then unless_null v else v in
          let b = if text_eq (codes "transactionIndex") j then unless_null a else a in
          let c = if text_eq (codes "nonce") j then to_decimal rt b else b in
          let d = if text_eq (codes "gas") j then to_decimal rt c else c in
          let e = if text_eq (codes "gasPrice") j then to_big rt d else d in
          if text_eq (codes "value") j then to_big rt e else e)
        ≡ transaction_property j v
  one_key j v = ground (
    arith,
    text_eq_iff (codes "blockNumber") j,
    text_eq_iff (codes "transactionIndex") j,
    text_eq_iff (codes "nonce") j,
    text_eq_iff (codes "gas") j,
    text_eq_iff (codes "gasPrice") j,
    text_eq_iff (codes "value") j,
  )

  transaction_field :
      (j : Text) (fs : Fields Big)
      → get j (transaction_fields rt fs) ≡ transaction_property j (get j fs)
  unfolding transaction_fields
  transaction_field j fs = simp (get-big, get-decimal, get-unless_null) (one_key j (get j fs))

-- outputTransactionFormatter of an object keeps every property but six: the block's number and the
-- index become numbers unless they are null, the nonce and the gas become numbers, the gas price
-- and the value big numbers.
pub output_transaction_lem :
    (rt : Runtime) (fs : Fields rt.big_number.Big)
    → (r : Fields rt.big_number.Big) × (output_transaction rt (obj fs) ≡ some (obj r))
      × ((j : Text) → get j r ≡ transaction_property rt j (get j fs))
unfolding output_transaction
output_transaction_lem rt fs = (transaction_fields rt fs, refl, λ j. transaction_field rt j fs)
