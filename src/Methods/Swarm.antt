-- ===== src/Methods/Swarm.antt =====
-- methods/swarm.js of src/console/jsre/deps/web3.js: a table of what the node offers.
use ultron.Prelude.{none, some, List, [], ◌∷◌}
use ultron.Text.{codes}
use ultron.Method.{Method, fixed}
use ultron.Property.{Property}
use ultron.Messages.{Runtime, Config}

module _ (rt : Runtime) (config : Config rt.big_number.Big) where
  open rt.big_number use {Big}

  abbrev pub block_network_read : Method Big
  block_network_read = record {
    name = codes "blockNetworkRead";
    call = fixed (codes "bzz_blockNetworkRead");
    params = 1;
    input_formatter = some (none ∷ []);
    output_formatter = none;
  }

  abbrev pub sync_enabled : Method Big
  sync_enabled = record {
    name = codes "syncEnabled";
    call = fixed (codes "bzz_syncEnabled");
    params = 1;
    input_formatter = some (none ∷ []);
    output_formatter = none;
  }

  abbrev pub swap_enabled : Method Big
  swap_enabled = record {
    name = codes "swapEnabled";
    call = fixed (codes "bzz_swapEnabled");
    params = 1;
    input_formatter = some (none ∷ []);
    output_formatter = none;
  }

  abbrev pub download : Method Big
  download = record {
    name = codes "download";
    call = fixed (codes "bzz_download");
    params = 2;
    input_formatter = some (none ∷ none ∷ []);
    output_formatter = none;
  }

  abbrev pub upload : Method Big
  upload = record {
    name = codes "upload";
    call = fixed (codes "bzz_upload");
    params = 2;
    input_formatter = some (none ∷ none ∷ []);
    output_formatter = none;
  }

  abbrev pub retrieve : Method Big
  retrieve = record {
    name = codes "retrieve";
    call = fixed (codes "bzz_retrieve");
    params = 1;
    input_formatter = some (none ∷ []);
    output_formatter = none;
  }

  abbrev pub store : Method Big
  store = record {
    name = codes "store";
    call = fixed (codes "bzz_store");
    params = 2;
    input_formatter = some (none ∷ none ∷ []);
    output_formatter = none;
  }

  abbrev pub get : Method Big
  get = record {
    name = codes "get";
    call = fixed (codes "bzz_get");
    params = 1;
    input_formatter = some (none ∷ []);
    output_formatter = none;
  }

  abbrev pub put : Method Big
  put = record {
    name = codes "put";
    call = fixed (codes "bzz_put");
    params = 2;
    input_formatter = some (none ∷ none ∷ []);
    output_formatter = none;
  }

  abbrev pub modify : Method Big
  modify = record {
    name = codes "modify";
    call = fixed (codes "bzz_modify");
    params = 4;
    input_formatter = some (none ∷ none ∷ none ∷ none ∷ []);
    output_formatter = none;
  }

  abbrev pub methods : List (Method Big)
  methods =
      block_network_read ∷ sync_enabled ∷ swap_enabled ∷ download ∷ upload ∷ retrieve ∷ store ∷ get
      ∷ put ∷ modify ∷ []

  abbrev pub hive : Property Big
  hive = record {
    name = codes "hive";
    getter = codes "bzz_hive";
    setter = none;
    input_formatter = none;
    output_formatter = none;
  }

  abbrev pub info : Property Big
  info = record {
    name = codes "info";
    getter = codes "bzz_info";
    setter = none;
    input_formatter = none;
    output_formatter = none;
  }

  abbrev pub properties : List (Property Big)
  properties = hive ∷ info ∷ []
