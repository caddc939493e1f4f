-- ===== src/Methods/Shh.antt =====
-- methods/shh.js of src/console/jsre/deps/web3.js: a table of what the node offers.
use ultron.Prelude.{none, some, List, [], ◌∷◌}
use ultron.Text.{codes}
use ultron.Method.{Method, fixed}
use ultron.Messages.{Runtime, Config, input_post}

module _ (rt : Runtime) (config : Config rt.big_number.Big) where
  open rt.big_number use {Big}

  abbrev pub post : Method Big
  post = record {
    name = codes "post";
    call = fixed (codes "shh_post");
    params = 1;
    input_formatter = some (some (input_post rt) ∷ []);
    output_formatter = none;
  }

  abbrev pub new_identity : Method Big
  new_identity = record {
    name = codes "newIdentity";
    call = fixed (codes "shh_newIdentity");
    params = 0;
    input_formatter = none;
    output_formatter = none;
  }

  abbrev pub has_identity : Method Big
  has_identity = record {
    name = codes "hasIdentity";
    call = fixed (codes "shh_hasIdentity");
    params = 1;
    input_formatter = none;
    output_formatter = none;
  }

  abbrev pub new_group : Method Big
  new_group = record {
    name = codes "newGroup";
    call = fixed (codes "shh_newGroup");
    params = 0;
    input_formatter = none;
    output_formatter = none;
  }

  abbrev pub add_to_group : Method Big
  add_to_group = record {
    name = codes "addToGroup";
    call = fixed (codes "shh_addToGroup");
    params = 0;
    input_formatter = none;
    output_formatter = none;
  }

  abbrev pub methods : List (Method Big)
  methods = post ∷ new_identity ∷ has_identity ∷ new_group ∷ add_to_group ∷ []
