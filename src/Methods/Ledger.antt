-- ===== src/Methods/Ledger.antt =====
-- methods/eth.js of src/console/jsre/deps/web3.js: what web3.eth asks of the chain.
use ultron.Prelude.{none, some, [], ◌∷◌}
use ultron.Text.{codes}
use ultron.Method.{Method, fixed, computed}
use ultron.Messages.{Runtime, Config, input_address}
use ultron.Messages.Outputs.{output_big_number, output_block, output_transaction, output_receipt}
use ultron.Methods.Calls.{
  block_number_of, block_or_default_of, hex_text_of, as_bool, as_decimal_of, block_call,
  transaction_from_block_call, uncle_call, get_block_transaction_count_call, uncle_count_call,
}

module _ (rt : Runtime) (config : Config rt.big_number.Big) where
  open rt.big_number use {Big}

  abbrev pub get_balance : Method Big
  get_balance = record {
    name = codes "getBalance";
    call = fixed (codes "eth_getBalance");
    params = 2;
    input_formatter = some (some (input_address rt) ∷ some (block_or_default_of rt config) ∷ []);
    output_formatter = some (output_big_number rt);
  }

  abbrev pub get_storage_at : Method Big
  get_storage_at = record {
    name = codes "getStorageAt";
    call = fixed (codes "eth_getStorageAt");
    params = 3;
    input_formatter =
        some (none ∷ some (hex_text_of rt config) ∷ some (block_or_default_of rt config) ∷ []);
    output_formatter = none;
  }

  abbrev pub get_code : Method Big
  get_code = record {
    name = codes "getCode";
    call = fixed (codes "eth_getCode");
    params = 2;
    input_formatter = some (some (input_address rt) ∷ some (block_or_default_of rt config) ∷ []);
    output_formatter = none;
  }

  abbrev pub get_block : Method Big
  get_block = record {
    name = codes "getBlock";
    call = computed block_call;
    params = 2;
    input_formatter = some (some (block_number_of rt config) ∷ some as_bool ∷ []);
    output_formatter = some (output_block rt);
  }

  abbrev pub get_uncle : Method Big
  get_uncle = record {
    name = codes "getUncle";
    call = computed uncle_call;
    params = 2;
    input_formatter = some (some (block_number_of rt config) ∷ some (hex_text_of rt config) ∷ []);
    output_formatter = some (output_block rt);
  }

  abbrev pub get_compilers : Method Big
  get_compilers = record {
    name = codes "getCompilers";
    call = fixed (codes "eth_getCompilers");
    params = 0;
    input_formatter = none;
    output_formatter = none;
  }

  abbrev pub get_block_transaction_count : Method Big
  get_block_transaction_count = record {
    name = codes "getBlockTransactionCount";
    call = computed get_block_transaction_count_call;
    params = 1;
    input_formatter = some (some (block_number_of rt config) ∷ []);
    output_formatter = some (as_decimal_of rt config);
  }

  abbrev pub get_block_uncle_count : Method Big
  get_block_uncle_count = record {
    name = codes "getBlockUncleCount";
    call = computed uncle_count_call;
    params = 1;
    input_formatter = some (some (block_number_of rt config) ∷ []);
    output_formatter = some (as_decimal_of rt config);
  }

  abbrev pub get_transaction : Method Big
  get_transaction = record {
    name = codes "getTransaction";
    call = fixed (codes "eth_getTransactionByHash");
    params = 1;
    input_formatter = none;
    output_formatter = some (output_transaction rt);
  }

  abbrev pub get_transaction_from_block : Method Big
  get_transaction_from_block = record {
    name = codes "getTransactionFromBlock";
    call = computed transaction_from_block_call;
    params = 2;
    input_formatter = some (some (block_number_of rt config) ∷ some (hex_text_of rt config) ∷ []);
    output_formatter = some (output_transaction rt);
  }

  abbrev pub get_transaction_receipt : Method Big
  get_transaction_receipt = record {
    name = codes "getTransactionReceipt";
    call = fixed (codes "eth_getTransactionReceipt");
    params = 1;
    input_formatter = none;
    output_formatter = some (output_receipt rt);
  }

  abbrev pub get_transaction_count : Method Big
  get_transaction_count = record {
    name = codes "getTransactionCount";
    call = fixed (codes "eth_getTransactionCount");
    params = 2;
    input_formatter = some (none ∷ some (block_or_default_of rt config) ∷ []);
    output_formatter = some (as_decimal_of rt config);
  }
