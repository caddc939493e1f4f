-- ===== src/Property.antt =====
-- property.js of src/console/jsre/deps/web3.js: a property of the page that is asked of the node.
use ultron.Prelude.{ℕ, Option, none, some, List, [], ◌∷◌, ◌++◌}
use mathlib.Core.Option
use ultron.Text.{Text, codes, to_upper}
use ultron.Rpc.{Request}
use ultron.Manager
use ultron.Manager.{Manager, Reply, Sent, returned, thrown, failed, done}
use ultron.Value.{Value, undefined, null}
use ultron.Method.{
  Formatter, BatchRequest, Told, told_error, told, Invoked, answered, raised, crashed, left,
  extract_callback, format_one,
}
use ultron.Method.Convert.{of_answer}

pub record Property (Big : Type 0) : Type 0 where
  pub name : Text
  pub getter : Text
  pub setter : Option Text
  pub input_formatter : Option (Formatter Big)
  pub output_formatter : Option (Formatter Big)

-- name.charAt(0).toUpperCase() + name.slice(1)
abbrev pub capitalised : Text → Text
capitalised [] = []
capitalised (c ∷ s) = to_upper c ∷ s

unfoldable pub async_getter_name : Text → Text
unfolding to_upper
async_getter_name name = codes "get" ++ capitalised name

-- The request for the property; it has no parameters.
abbrev pub getter_request : {Big : Type 0} → Property Big → Request
getter_request p = record { method = p.getter; params = none }

module _ {Big : Type 0} where
  unfoldable pub format_input : Property Big → Value Big → Option (Value Big)
  format_input p arg = format_one p.input_formatter arg

  -- Here only null and undefined are left alone: false is formatted.
  unfoldable pub format_output : Property Big → Value Big → Option (Value Big)
  format_output p undefined = some undefined
  format_output p null = some null
  format_output p result = format_one p.output_formatter result

  unfoldable pub get : Manager → Property Big → Manager × Invoked Big
  unfolding format_output of_answer
  get rm p =
      let (rm', sent) = Manager.send rm (getter_request p) in
      (
        rm',
        elim sent [
          | returned result ↦ elim (format_output p (of_answer result)) [
            | none ↦ crashed
            | some v ↦ answered v
          ]
          | thrown e ↦ raised e
        ],
      )

  unfoldable pub get_async : Manager → Property Big → ℕ → Manager × Invoked Big
  get_async rm p callback =
      let (rm', sent, events) = Manager.send_async rm (getter_request p) callback in
      (rm', left sent events)

  -- What the callback of the page gets.
  unfoldable pub callback_result : Property Big → Reply → Option (Told Big)
  unfolding format_output of_answer
  callback_result p (failed e) = some (told_error e)
  callback_result p (done result) = Option.map told (format_output p (of_answer result))

  unfoldable pub request : Property Big → List (Value Big) → BatchRequest Big
  unfolding format_output
  request p args = record {
    payload = record { method = p.getter; params = []; callback = (extract_callback args).1 };
    format = format_output p;
  }
