-- ===== src/Methods/Net.antt =====
-- methods/net.js of src/console/jsre/deps/web3.js: a table of what the node offers.
use ultron.Prelude.{none, some, List, [], ◌∷◌}
use ultron.Text.{codes}
use ultron.Property.{Property}
use ultron.Messages.{Runtime, Config}
use ultron.Methods.Calls.{as_decimal_of}

module _ (rt : Runtime) (config : Config rt.big_number.Big) where
  open rt.big_number use {Big}

  abbrev pub listening : Property Big
  listening = record {
    name = codes "listening";
    getter = codes "net_listening";
    setter = none;
    input_formatter = none;
    output_formatter = none;
  }

  abbrev pub peer_count : Property Big
  peer_count = record {
    name = codes "peerCount";
    getter = codes "net_peerCount";
    setter = none;
    input_formatter = none;
    output_formatter = some (as_decimal_of rt config);
  }

  abbrev pub properties : List (Property Big)
  properties = listening ∷ peer_count ∷ []
