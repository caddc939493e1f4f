-- ===== src/Function/Calls.antt =====
-- The operations of function.js in src/console/jsre/deps/web3.js that make requests of the node: call,
-- sendTransaction, estimateGas and execute.
use ultron.Prelude.{ℕ, not, ◌&&◌, Option, none, some, List, ◌∷◌, if◌then◌else◌}
use ultron.Value.{Value, undefined}
use ultron.Manager.{Manager}
use ultron.Messages.{Config, input_default_block_number}
use ultron.Method.{Invoked, crashed, invoke, extract_callback, without_last}
use ultron.Methods.Actions
use ultron.Coder.{Libraries}
use ultron.Function.{
  SolidityFunction, Payload, Outcome, not_payable, invoked, callback_args, is_object, last_arg,
  has_more, defined, to_payload, unpack_answer, has_value,
}

module _ (lib : Libraries) where
  open lib use {runtime}
  open lib.runtime.big_number use {Big, to_text}

  module _ (config : Config Big) where
    unfoldable pub extract_default_block :
        SolidityFunction Big → List (Value Big) → List (Value Big) × Value Big
    unfolding input_default_block_number
    extract_default_block f args =
        if has_more f args && not (is_object (last_arg args))
        then (without_last args, input_default_block_number runtime config (last_arg args))
        else (args, undefined)

    abbrev pub call_with :
        Manager
        → SolidityFunction Big
        → Option ℕ
        → Value Big
        → Option (Payload Big)
        → Manager × Invoked Big
    call_with rm f callback block none = (rm, crashed)
    call_with rm f callback block (some p) =
        let result =
          invoke (to_text 10) rm (Actions.call runtime config)
            (p.options ∷ block ∷ callback_args callback) in
        (result.0, unpack_answer lib f callback result.2)

    unfoldable pub call : Manager → SolidityFunction Big → List (Value Big) → Manager × Invoked Big
    unfolding extract_callback extract_default_block to_payload
    call rm f args =
        let (given, callback) = extract_callback (defined args) in
        let (rest, block) = extract_default_block f given in
        call_with rm f callback block (to_payload lib f rest)

    unfoldable pub send_with :
        Manager → SolidityFunction Big → Option ℕ → Option (Payload Big) → Manager × Outcome Big
    unfolding has_value
    send_with rm f callback none = (rm, invoked crashed)
    send_with rm f callback (some p) =
        if has_value lib p.options && not f.payable
        then (rm, not_payable)
        else let result =
            invoke (to_text 10) rm (Actions.send_transaction runtime config)
              (p.options ∷ callback_args callback) in
          (result.0, invoked result.2)

    unfoldable pub send_transaction :
        Manager → SolidityFunction Big → List (Value Big) → Manager × Outcome Big
    unfolding extract_callback to_payload
    send_transaction rm f args =
        let (given, callback) = extract_callback (defined args) in
        send_with rm f callback (to_payload lib f given)

    unfoldable pub estimate_gas :
        Manager → SolidityFunction Big → List (Value Big) → Manager × Invoked Big
    unfolding extract_callback to_payload
    estimate_gas rm f args =
        let (given, callback) = extract_callback args in
        elim (to_payload lib f given) [
          | none ↦ (rm, crashed)
          | some p ↦
              let result =
                invoke (to_text 10) rm (Actions.estimate_gas runtime config)
                  (p.options ∷ callback_args callback) in
              (result.0, result.2)
        ]

    unfoldable pub execute :
        Manager → SolidityFunction Big → List (Value Big) → Manager × Outcome Big
    unfolding call send_transaction
    execute rm f args =
        if not f.constant
        then send_transaction rm f args
        else let result = call rm f args in (result.0, invoked result.1)
