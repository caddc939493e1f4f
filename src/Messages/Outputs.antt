-- ===== src/Messages/Outputs.antt =====
-- The formatters of results in formatters.js of src/console/jsre/deps/web3.js: quantities become
-- numbers or big numbers. `none` is an exception.
use ultron.Prelude.{Option, none, some, List, [], ◌∷◌, if◌then◌else◌}
use ultron.Text.{Text, codes}
use ultron.Utils.{to_ascii}
use ultron.Value.{
  Value, Values, Fields, undefined, null, str, arr, obj, nil, cons, get, put, truthy, is_null,
}
use ultron.Messages.{Runtime, to_decimal, to_big, ◌>>=◌}

-- A formatter of an object: what is no object is left alone, but has to have properties.
abbrev pub on_object : {B : Type 0} → (Fields B → Option (Value B)) → Value B → Option (Value B)
on_object f undefined = none
on_object f null = none
on_object f (obj fs) = f fs
on_object f v = some v

module _ (rt : Runtime) where
  open rt.big_number use {Big}

  unfoldable pub decimal : Text → Fields Big → Fields Big
  unfolding get put
  decimal key fs = put key (to_decimal rt (get key fs)) fs

  unfoldable pub decimal_unless_null : Text → Fields Big → Fields Big
  unfolding get put decimal
  decimal_unless_null key fs = if is_null (get key fs) then fs else decimal key fs

  unfoldable pub big_key : Text → Fields Big → Fields Big
  unfolding get put
  big_key key fs = put key (to_big rt (get key fs)) fs

  abbrev pub apply : List (Fields Big → Fields Big) → Fields Big → Fields Big
  apply [] fs = fs
  apply (f ∷ rest) fs = apply rest (f fs)

  unfoldable pub output_big_number : Value Big → Option (Value Big)
  output_big_number v = some (to_big rt v)

  unfoldable pub transaction_fields : Fields Big → Fields Big
  transaction_fields = apply (
      decimal_unless_null (codes "blockNumber")
      ∷ decimal_unless_null (codes "transactionIndex")
      ∷ decimal (codes "nonce")
      ∷ decimal (codes "gas")
      ∷ big_key (codes "gasPrice")
      ∷ big_key (codes "value")
      ∷ [])

  unfoldable pub output_transaction : Value Big → Option (Value Big)
  unfolding transaction_fields
  output_transaction = on_object (λ fs. some (obj (transaction_fields fs)))

  unfoldable pub log_fields : Fields Big → Fields Big
  log_fields = apply (
      decimal_unless_null (codes "blockNumber")
      ∷ decimal_unless_null (codes "transactionIndex")
      ∷ decimal_unless_null (codes "logIndex")
      ∷ [])

  unfoldable pub output_log : Value Big → Option (Value Big)
  unfolding log_fields
  output_log = on_object (λ fs. some (obj (log_fields fs)))

  unfoldable pub map_values : (Value Big → Option (Value Big)) → Values Big → Option (Values Big)
  map_values f nil = some nil
  map_values f (cons v vs) = do w ← f v; ws ← map_values f vs; some (cons w ws)

  -- A property that is an array has its elements formatted, any other stays.
  abbrev pub array_key : Text → (Value Big → Option (Value Big)) → Fields Big → Option (Fields Big)
  array_key key f fs = elim (get key fs) [
    | arr vs ↦ map_values f vs >>= λ ws. some (put key (arr ws) fs)
    | _ ↦ some fs
  ]

  unfoldable pub output_receipt : Value Big → Option (Value Big)
  unfolding decimal decimal_unless_null map_values output_log
  output_receipt = on_object (λ fs.
      array_key (codes "logs") output_log (
        apply
          (decimal_unless_null (codes "blockNumber")
            ∷ decimal_unless_null (codes "transactionIndex")
            ∷ decimal (codes "cumulativeGasUsed")
            ∷ decimal (codes "gasUsed")
            ∷ [])
          fs)
      >>= λ gs. some (obj gs))

  -- A transaction that is a text is a hash and stays.
  abbrev pub block_transaction : Value Big → Option (Value Big)
  block_transaction (str s) = some (str s)
  block_transaction v = output_transaction v

  unfoldable pub output_block : Value Big → Option (Value Big)
  unfolding decimal decimal_unless_null big_key map_values output_transaction
  output_block = on_object (λ fs.
      array_key (codes "transactions") block_transaction (
        apply
          (decimal (codes "gasLimit")
            ∷ decimal (codes "gasUsed")
            ∷ decimal (codes "size")
            ∷ decimal (codes "timestamp")
            ∷ decimal_unless_null (codes "number")
            ∷ big_key (codes "difficulty")
            ∷ big_key (codes "totalDifficulty")
            ∷ [])
          fs)
      >>= λ gs. some (obj gs))

  -- A topic has to be a text.
  abbrev pub ascii_topic : Value Big → Option (Value Big)
  ascii_topic (str s) = some (str (to_ascii s))
  ascii_topic _ = none

  abbrev pub ascii_topics : Value Big → Option (Value Big)
  ascii_topics (arr vs) = map_values ascii_topic vs >>= λ ws. some (arr ws)
  ascii_topics v = if truthy v then none else some (arr nil)

  unfoldable pub output_post : Value Big → Option (Value Big)
  unfolding decimal map_values truthy
  output_post (obj fs) =
      let gs =
        apply
          (decimal (codes "expiry")
            ∷ decimal (codes "sent")
            ∷ decimal (codes "ttl")
            ∷ decimal (codes "workProved")
            ∷ [])
          fs in
      ascii_topics (get (codes "topics") gs) >>= λ ts. some (obj (put (codes "topics") ts gs))
  output_post _ = none

  -- Only what counts states has both of the last two.
  unfoldable pub syncing_fields : Fields Big → Fields Big
  unfolding decimal truthy
  syncing_fields fs =
      let gs =
        apply
          (decimal (codes "startingBlock")
            ∷ decimal (codes "currentBlock")
            ∷ decimal (codes "highestBlock")
            ∷ [])
          fs in
      if truthy (get (codes "knownStates") gs)
      then decimal (codes "pulledStates") (decimal (codes "knownStates") gs)
      else gs

  unfoldable pub output_syncing : Value Big → Option (Value Big)
  unfolding syncing_fields
  output_syncing = on_object (λ fs. some (obj (syncing_fields fs)))
