-- ===== src/Methods/Logs.antt =====
-- watches.js (eth) of src/console/jsre/deps/web3.js: the methods of a filter.
use ultron.Prelude.{none, List, [], ◌∷◌}
use ultron.Text.{codes}
use ultron.Method.{Method, fixed, computed}
use ultron.Messages.{Runtime, Config}
use ultron.Methods.Calls.{new_filter_call}

module _ (rt : Runtime) (config : Config rt.big_number.Big) where
  open rt.big_number use {Big}

  abbrev pub new_filter : Method Big
  new_filter = record {
    name = codes "newFilter";
    call = computed new_filter_call;
    params = 1;
    input_formatter = none;
    output_formatter = none;
  }

  abbrev pub uninstall_filter : Method Big
  uninstall_filter = record {
    name = codes "uninstallFilter";
    call = fixed (codes "eth_uninstallFilter");
    params = 1;
    input_formatter = none;
    output_formatter = none;
  }

  abbrev pub get_logs : Method Big
  get_logs = record {
    name = codes "getLogs";
    call = fixed (codes "eth_getFilterLogs");
    params = 1;
    input_formatter = none;
    output_formatter = none;
  }

  abbrev pub poll : Method Big
  poll = record {
    name = codes "poll";
    call = fixed (codes "eth_getFilterChanges");
    params = 1;
    input_formatter = none;
    output_formatter = none;
  }

  abbrev pub methods : List (Method Big)
  methods = new_filter ∷ uninstall_filter ∷ get_logs ∷ poll ∷ []
