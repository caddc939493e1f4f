-- ===== src/Methods/Version.antt =====
-- web3.js (properties) of src/console/jsre/deps/web3.js: a table of what the node offers.
use ultron.Prelude.{none, some, List, [], ◌∷◌}
use ultron.Text.{codes}
use ultron.Property.{Property}
use ultron.Messages.{Runtime, Config}
use ultron.Methods.Calls.{as_decimal_of}

module _ (rt : Runtime) (config : Config rt.big_number.Big) where
  open rt.big_number use {Big}

  abbrev pub version_node : Property Big
  version_node = record {
    name = codes "version.node";
    getter = codes "web3_clientVersion";
    setter = none;
    input_formatter = none;
    output_formatter = none;
  }

  abbrev pub version_network : Property Big
  version_network = record {
    name = codes "version.network";
    getter = codes "net_version";
    setter = none;
    input_formatter = some (as_decimal_of rt config);
    output_formatter = none;
  }

  abbrev pub version_ethereum : Property Big
  version_ethereum = record {
    name = codes "version.ethereum";
    getter = codes "eth_protocolVersion";
    setter = none;
    input_formatter = some (as_decimal_of rt config);
    output_formatter = none;
  }

  abbrev pub version_whisper : Property Big
  version_whisper = record {
    name = codes "version.whisper";
    getter = codes "shh_version";
    setter = none;
    input_formatter = some (as_decimal_of rt config);
    output_formatter = none;
  }

  abbrev pub properties : List (Property Big)
  properties = version_node ∷ version_network ∷ version_ethereum ∷ version_whisper ∷ []
