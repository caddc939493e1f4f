-- ===== src/Event/Execute.antt =====
-- execute and attachToContract of event.js in src/console/jsre/deps/web3.js: a filter on an event.
use ultron.Prelude.{ℕ, Option, some, List, [], ◌∷◌}
use ultron.Text.{Text, codes}
use ultron.Json
use ultron.Manager.{Manager}
use ultron.Value.{Value}
use ultron.Messages.{Config, ◌>>=◌}
use ultron.Method.{Formatter}
use ultron.Filter
use ultron.Filter.{Filter, Step}
use ultron.Filter.Options.{get_options}
use ultron.Methods.Logs
use ultron.Coder.{Libraries}
use ultron.Event.{SolidityEvent, given, encode, decode}

-- What the filter hands out: the callback of its creation, and those of its poll.
pub record Handles : Type 0 where
  pub on_created : ℕ
  pub on_message : ℕ
  pub stop : ℕ

module _ (lib : Libraries) (config : Config lib.runtime.big_number.Big)
    (function_text : ℕ → Text) where
  open lib use {runtime}
  open lib.runtime.big_number use {Big, to_text}

  -- new Filter(requestManager, o, watches.eth(), formatter, callback)
  unfoldable pub new_filter :
      Manager → Handles → Value Big → Formatter Big → Option ℕ → Option (Step Big)
  unfolding get_options Filter.create
  new_filter rm h options formatter callback = do
    o ← get_options runtime function_text options
    some (
        Filter.create (to_text 10) rm
          (record {
            options = o;
            implementation = record {
              new_filter = Logs.new_filter runtime config;
              uninstall_filter = Logs.uninstall_filter runtime config;
              get_logs = Logs.get_logs runtime config;
              poll = codes "eth_getFilterChanges";
            };
            filter_id = Json.null;
            callbacks = [];
            get_logs_callbacks = [];
            formatter = some formatter;
            on_message = h.on_message;
            stop = h.stop;
          })
          h.on_created callback)

  unfoldable pub execute :
      Manager → Handles → SolidityEvent Big → List (Value Big) → Option (Step Big)
  unfolding given encode decode new_filter
  execute rm h e args = do
    o ← encode lib e (given args).indexed (given args).options
    new_filter rm h o (decode lib e) (given args).callback

  -- contract[displayName][typeName]: the contract is bound as the first argument.
  unfoldable pub overload :
      Manager → Handles → SolidityEvent Big → Value Big → List (Value Big) → Option (Step Big)
  unfolding execute
  overload rm h e contract args = execute rm h e (contract ∷ args)
