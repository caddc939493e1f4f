-- ===== src/Methods/Actions.antt =====
-- methods/eth.js of src/console/jsre/deps/web3.js: what web3.eth asks the node to do.
use ultron.Prelude.{none, some, [], ◌∷◌}
use ultron.Text.{codes}
use ultron.Method.{Method, fixed}
use ultron.Messages.{Runtime, Config, input_address, input_transaction, input_call}
use ultron.Methods.Calls.{block_or_default_of, as_decimal_of}

module _ (rt : Runtime) (config : Config rt.big_number.Big) where
  open rt.big_number use {Big}

  abbrev pub send_raw_transaction : Method Big
  send_raw_transaction = record {
    name = codes "sendRawTransaction";
    call = fixed (codes "eth_sendRawTransaction");
    params = 1;
    input_formatter = some (none ∷ []);
    output_formatter = none;
  }

  abbrev pub send_transaction : Method Big
  send_transaction = record {
    name = codes "sendTransaction";
    call = fixed (codes "eth_sendTransaction");
    params = 1;
    input_formatter = some (some (input_transaction rt config) ∷ []);
    output_formatter = none;
  }

  abbrev pub sign : Method Big
  sign = record {
    name = codes "sign";
    call = fixed (codes "eth_sign");
    params = 2;
    input_formatter = some (some (input_address rt) ∷ none ∷ []);
    output_formatter = none;
  }

  abbrev pub call : Method Big
  call = record {
    name = codes "call";
    call = fixed (codes "eth_call");
    params = 2;
    input_formatter =
        some (some (input_call rt config) ∷ some (block_or_default_of rt config) ∷ []);
    output_formatter = none;
  }

  abbrev pub estimate_gas : Method Big
  estimate_gas = record {
    name = codes "estimateGas";
    call = fixed (codes "eth_estimateGas");
    params = 1;
    input_formatter = some (some (input_call rt config) ∷ []);
    output_formatter = some (as_decimal_of rt config);
  }

  abbrev pub compile_solidity : Method Big
  compile_solidity = record {
    name = codes "compile.solidity";
    call = fixed (codes "eth_compileSolidity");
    params = 1;
    input_formatter = none;
    output_formatter = none;
  }

  abbrev pub compile_lll : Method Big
  compile_lll = record {
    name = codes "compile.lll";
    call = fixed (codes "eth_compileLLL");
    params = 1;
    input_formatter = none;
    output_formatter = none;
  }

  abbrev pub compile_serpent : Method Big
  compile_serpent = record {
    name = codes "compile.serpent";
    call = fixed (codes "eth_compileSerpent");
    params = 1;
    input_formatter = none;
    output_formatter = none;
  }

  abbrev pub submit_work : Method Big
  submit_work = record {
    name = codes "submitWork";
    call = fixed (codes "eth_submitWork");
    params = 3;
    input_formatter = none;
    output_formatter = none;
  }

  abbrev pub get_work : Method Big
  get_work = record {
    name = codes "getWork";
    call = fixed (codes "eth_getWork");
    params = 0;
    input_formatter = none;
    output_formatter = none;
  }
