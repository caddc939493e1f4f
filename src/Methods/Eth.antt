-- ===== src/Methods/Eth.antt =====
-- methods/eth.js of src/console/jsre/deps/web3.js: the tables of web3.eth. The settings are those at
-- the time of the call.
use ultron.Prelude.{none, some, List, [], ◌∷◌}
use ultron.Text.{codes}
use ultron.Method.{Method}
use ultron.Property.{Property}
use ultron.Messages.{Runtime, Config}
use ultron.Messages.Outputs.{output_big_number, output_syncing}
use ultron.Methods.Calls.{as_decimal_of}
use ultron.Methods.Ledger.{
  get_balance, get_storage_at, get_code, get_block, get_uncle, get_compilers,
  get_block_transaction_count, get_block_uncle_count, get_transaction, get_transaction_from_block,
  get_transaction_receipt, get_transaction_count,
}
use ultron.Methods.Actions.{
  send_raw_transaction, send_transaction, sign, call, estimate_gas, compile_solidity, compile_lll,
  compile_serpent, submit_work, get_work,
}

module _ (rt : Runtime) (config : Config rt.big_number.Big) where
  open rt.big_number use {Big}

  abbrev pub methods : List (Method Big)
  methods =
      (get_balance rt config)
      ∷ (get_storage_at rt config)
      ∷ (get_code rt config)
      ∷ (get_block rt config)
      ∷ (get_uncle rt config)
      ∷ (get_compilers rt config)
      ∷ (get_block_transaction_count rt config)
      ∷ (get_block_uncle_count rt config)
      ∷ (get_transaction rt config)
      ∷ (get_transaction_from_block rt config)
      ∷ (get_transaction_receipt rt config)
      ∷ (get_transaction_count rt config)
      ∷ (call rt config)
      ∷ (estimate_gas rt config)
      ∷ (send_raw_transaction rt config)
      ∷ (send_transaction rt config)
      ∷ (sign rt config)
      ∷ (compile_solidity rt config)
      ∷ (compile_lll rt config)
      ∷ (compile_serpent rt config)
      ∷ (submit_work rt config)
      ∷ (get_work rt config)
      ∷ []

  abbrev pub coinbase : Property Big
  coinbase = record {
    name = codes "coinbase";
    getter = codes "eth_coinbase";
    setter = none;
    input_formatter = none;
    output_formatter = none;
  }

  abbrev pub mining : Property Big
  mining = record {
    name = codes "mining";
    getter = codes "eth_mining";
    setter = none;
    input_formatter = none;
    output_formatter = none;
  }

  abbrev pub hashrate : Property Big
  hashrate = record {
    name = codes "hashrate";
    getter = codes "eth_hashrate";
    setter = none;
    input_formatter = none;
    output_formatter = some (as_decimal_of rt config);
  }

  abbrev pub syncing : Property Big
  syncing = record {
    name = codes "syncing";
    getter = codes "eth_syncing";
    setter = none;
    input_formatter = none;
    output_formatter = some (output_syncing rt);
  }

  abbrev pub gas_price : Property Big
  gas_price = record {
    name = codes "gasPrice";
    getter = codes "eth_gasPrice";
    setter = none;
    input_formatter = none;
    output_formatter = some (output_big_number rt);
  }

  abbrev pub accounts : Property Big
  accounts = record {
    name = codes "accounts";
    getter = codes "eth_accounts";
    setter = none;
    input_formatter = none;
    output_formatter = none;
  }

  abbrev pub block_number : Property Big
  block_number = record {
    name = codes "blockNumber";
    getter = codes "eth_blockNumber";
    setter = none;
    input_formatter = none;
    output_formatter = some (as_decimal_of rt config);
  }

  abbrev pub protocol_version : Property Big
  protocol_version = record {
    name = codes "protocolVersion";
    getter = codes "eth_protocolVersion";
    setter = none;
    input_formatter = none;
    output_formatter = none;
  }

  abbrev pub properties : List (Property Big)
  properties =
      coinbase ∷ mining ∷ hashrate ∷ syncing ∷ gas_price ∷ accounts ∷ block_number
      ∷ protocol_version ∷ []
