-- ===== src/Filter/Returned.antt =====
-- get of filter.js in src/console/jsre/deps/web3.js without a callback: the logs are returned.
use ultron.Prelude.{Option, none, some, List, [], ◌∷◌, if◌then◌else◌}
use ultron.Text.{Text}
use ultron.Rpc.{Error}
use ultron.Manager.{Manager}
use ultron.Value.{Value, arr, items}
use ultron.Method.{
  Formatter, Invoked, answered, raised, crashed, left, invoke, cons_both, format_one,
}
use ultron.Method.Convert.{of_json}
use ultron.Filter.{Filter, is_null}

pub data Outcome (Big : Type 0) : Type 0 where
  -- 'Filter ID Error'
  without_id : Outcome Big
  returned : List (Value Big) → Outcome Big
  thrown : Error → Outcome Big
  -- An exception of the formatter, or of what has no map.
  broke : Outcome Big

module _ {Big : Type 0} where
  -- logs.map(formatter)
  unfoldable pub format_values :
      Option (Formatter Big) → List (Value Big) → Option (List (Value Big))
  format_values f [] = some []
  format_values f (log ∷ rest) = cons_both (format_one f log) (format_values f rest)

  abbrev returned_or_broke : Option (List (Value Big)) → Outcome Big
  returned_or_broke none = broke
  returned_or_broke (some vs) = returned vs

  unfoldable pub logs_of : Filter Big → Invoked Big → Outcome Big
  unfolding format_values
  logs_of f (answered (arr logs)) = returned_or_broke (format_values f.formatter (items logs))
  logs_of f (answered v) = broke
  logs_of f (raised e) = thrown e
  logs_of f crashed = broke
  logs_of f (left payload events) = broke

  unfoldable pub get_now : (Big → Text) → Manager → Filter Big → Manager × Outcome Big
  unfolding invoke of_json logs_of
  get_now to_text rm f =
      if is_null f.filter_id
      then (rm, without_id)
      else let result = invoke to_text rm f.implementation.get_logs (of_json f.filter_id ∷ []) in
        (result.0, logs_of f result.2)
