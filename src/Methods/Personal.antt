-- ===== src/Methods/Personal.antt =====
-- methods/personal.js of src/console/jsre/deps/web3.js: a table of what the node offers.
use ultron.Prelude.{none, some, List, [], ◌∷◌}
use ultron.Text.{codes}
use ultron.Method.{Method, fixed}
use ultron.Property.{Property}
use ultron.Messages.{Runtime, Config, input_address, input_transaction}

module _ (rt : Runtime) (config : Config rt.big_number.Big) where
  open rt.big_number use {Big}

  abbrev pub new_account : Method Big
  new_account = record {
    name = codes "newAccount";
    call = fixed (codes "personal_newAccount");
    params = 1;
    input_formatter = some (none ∷ []);
    output_formatter = none;
  }

  abbrev pub unlock_account : Method Big
  unlock_account = record {
    name = codes "unlockAccount";
    call = fixed (codes "personal_unlockAccount");
    params = 3;
    input_formatter = some (some (input_address rt) ∷ none ∷ none ∷ []);
    output_formatter = none;
  }

  abbrev pub send_transaction : Method Big
  send_transaction = record {
    name = codes "sendTransaction";
    call = fixed (codes "personal_sendTransaction");
    params = 2;
    input_formatter = some (some (input_transaction rt config) ∷ none ∷ []);
    output_formatter = none;
  }

  abbrev pub lock_account : Method Big
  lock_account = record {
    name = codes "lockAccount";
    call = fixed (codes "personal_lockAccount");
    params = 1;
    input_formatter = some (some (input_address rt) ∷ []);
    output_formatter = none;
  }

  abbrev pub methods : List (Method Big)
  methods = new_account ∷ unlock_account ∷ send_transaction ∷ lock_account ∷ []

  abbrev pub list_accounts : Property Big
  list_accounts = record {
    name = codes "listAccounts";
    getter = codes "personal_listAccounts";
    setter = none;
    input_formatter = none;
    output_formatter = none;
  }

  abbrev pub properties : List (Property Big)
  properties = list_accounts ∷ []
