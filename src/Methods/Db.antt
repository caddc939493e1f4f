-- ===== src/Methods/Db.antt =====
-- methods/db.js of src/console/jsre/deps/web3.js: a table of what the node offers.
use ultron.Prelude.{none, List, [], ◌∷◌}
use ultron.Text.{codes}
use ultron.Method.{Method, fixed}
use ultron.Messages.{Runtime, Config}

module _ (rt : Runtime) (config : Config rt.big_number.Big) where
  open rt.big_number use {Big}

  abbrev pub put_string : Method Big
  put_string = record {
    name = codes "putString";
    call = fixed (codes "db_putString");
    params = 3;
    input_formatter = none;
    output_formatter = none;
  }

  abbrev pub get_string : Method Big
  get_string = record {
    name = codes "getString";
    call = fixed (codes "db_getString");
    params = 2;
    input_formatter = none;
    output_formatter = none;
  }

  abbrev pub put_hex : Method Big
  put_hex = record {
    name = codes "putHex";
    call = fixed (codes "db_putHex");
    params = 3;
    input_formatter = none;
    output_formatter = none;
  }

  abbrev pub get_hex : Method Big
  get_hex = record {
    name = codes "getHex";
    call = fixed (codes "db_getHex");
    params = 2;
    input_formatter = none;
    output_formatter = none;
  }

  abbrev pub methods : List (Method Big)
  methods = put_string ∷ get_string ∷ put_hex ∷ get_hex ∷ []
