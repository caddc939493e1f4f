-- ===== src/Methods/Calls.antt =====
-- The computed names and the small formatters of the tables in methods/ of
-- src/console/jsre/deps/web3.js.
use ultron.Prelude.{Bool, false, Option, none, some, List, if◌then◌else◌}
use ultron.Text.{Text, codes, text_eq}
use ultron.Value.{Value, bool, str, truthy, is_hex_text}
use ultron.Method.{Choice, first_arg, other_args}
use ultron.Messages.{
  Runtime, Config, to_decimal, to_hex_value, input_block_number, input_default_block_number,
}

module _ {Big : Type 0} where
  -- A hash or a number names a block.
  unfoldable pub by_block : Text → Text → List (Value Big) → Choice Big
  by_block by_hash by_number args = record {
    method = if is_hex_text (first_arg args) then by_hash else by_number;
    args = args;
    new_params = none;
  }

  unfoldable pub block_call : List (Value Big) → Choice Big
  unfolding by_block
  block_call = by_block (codes "eth_getBlockByHash") (codes "eth_getBlockByNumber")

  unfoldable pub transaction_from_block_call : List (Value Big) → Choice Big
  unfolding by_block
  transaction_from_block_call =
      by_block (codes "eth_getTransactionByBlockHashAndIndex")
        (codes "eth_getTransactionByBlockNumberAndIndex")

  unfoldable pub uncle_call : List (Value Big) → Choice Big
  unfolding by_block
  uncle_call =
      by_block (codes "eth_getUncleByBlockHashAndIndex") (codes "eth_getUncleByBlockNumberAndIndex")

  unfoldable pub get_block_transaction_count_call : List (Value Big) → Choice Big
  unfolding by_block
  get_block_transaction_count_call =
      by_block (codes "eth_getBlockTransactionCountByHash")
        (codes "eth_getBlockTransactionCountByNumber")

  unfoldable pub uncle_count_call : List (Value Big) → Choice Big
  unfolding by_block
  uncle_count_call =
      by_block (codes "eth_getUncleCountByBlockHash") (codes "eth_getUncleCountByBlockNumber")

  abbrev pub is_text : Text → Value Big → Bool
  is_text t (str s) = text_eq s t
  is_text t _ = false

  -- A filter on blocks or on pending transactions takes no more arguments.
  unfoldable pub new_filter_call : List (Value Big) → Choice Big
  unfolding text_eq
  new_filter_call args =
      if is_text (codes "latest") (first_arg args)
      then record {
        method = codes "eth_newBlockFilter";
        args = other_args args;
        new_params = some 0;
      }
      else if is_text (codes "pending") (first_arg args)
      then record {
        method = codes "eth_newPendingTransactionFilter";
        args = other_args args;
        new_params = some 0;
      }
      else record { method = codes "eth_newFilter"; args = args; new_params = none }

  -- !!val
  abbrev pub as_bool : Value Big → Option (Value Big)
  as_bool v = some (bool (truthy v))

-- Formatters that raise no exception.
module _ (rt : Runtime) (config : Config rt.big_number.Big) where
  open rt.big_number use {Big}

  abbrev pub block_number_of : Value Big → Option (Value Big)
  block_number_of v = some (input_block_number rt v)

  abbrev pub block_or_default_of : Value Big → Option (Value Big)
  block_or_default_of v = some (input_default_block_number rt config v)

  abbrev pub hex_text_of : Value Big → Option (Value Big)
  hex_text_of v = some (str (to_hex_value rt v))

  abbrev pub as_decimal_of : Value Big → Option (Value Big)
  as_decimal_of v = some (to_decimal rt v)
