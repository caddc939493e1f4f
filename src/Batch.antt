-- ===== src/Batch.antt =====
-- batch.js of src/console/jsre/deps/web3.js: requests that are sent together.
pub mod Delivery
mod Tests
use ultron.Prelude.{
  ℕ, Bool, true, false, not, Option, none, some, List, [], ◌∷◌, ◌++◌, map, if◌then◌else◌,
}
use ultron.Text.{Text, codes}
use ultron.Json
use ultron.Json.{Json, items, arr, obj, end, member, truthy}
use ultron.Rpc.{Error, Payload, Request, invalid_response, is_valid_response}
use ultron.Manager
use ultron.Manager.{Manager, Event}
use ultron.Value.{Value}
use ultron.Method.{BatchRequest, Prepared, Told, told_error, told, request_of}
use ultron.Method.Convert.{of_answer}

-- The requests, in the order in which they were added.
pub record Batch (Big : Type 0) : Type 0 where
  pub requests : List (BatchRequest Big)

-- results[index] || {}
abbrev pub or_object : Option Json → Json
or_object none = obj end
or_object (some v) = if truthy (some v) then v else obj end

abbrev pub first_result : List Json → Option Json
first_result [] = none
first_result (v ∷ vs) = some v

abbrev pub later_results : List Json → List Json
later_results [] = []
later_results (v ∷ vs) = vs

-- The callbacks that were called, in order, and whether an exception of a formatter broke the loop
-- off.
pub record Outcome (Big : Type 0) : Type 0 where
  pub called : List (ℕ × Told Big)
  pub broken_off : Bool

-- A request without a callback is passed over.
abbrev pub then_called : {Big : Type 0} → Option ℕ → Option (Told Big) → Outcome Big → Outcome Big
then_called none t rest = rest
then_called (some callback) none rest = record { called = []; broken_off = true }
then_called (some callback) (some t) rest = record {
  called = (callback, t) ∷ rest.called;
  broken_off = rest.broken_off;
}

module _ {Big : Type 0} where
  unfoldable pub create : Batch Big
  create = record { requests = [] }

  unfoldable pub add : Batch Big → BatchRequest Big → Batch Big
  add b request = record { requests = b.requests ++ request ∷ [] }

  abbrev pub told_by : Option (Value Big) → Option (Told Big)
  told_by none = none
  told_by (some v) = some (told v)

  -- What the callback of one request gets: its formatted result, or an error for its whole answer.
  unfoldable pub outcome : BatchRequest Big → Json → Option (Told Big)
  unfolding is_valid_response member of_answer
  outcome request result =
      if is_valid_response (some result)
      then told_by (request.format (of_answer (member (codes "result") (some result))))
      else some (told_error (invalid_response (some result)))

  -- The callbacks of the requests, each with the result at its place.
  unfoldable pub deliver : List (BatchRequest Big) → List Json → Outcome Big
  unfolding outcome truthy
  deliver [] results = record { called = []; broken_off = false }
  deliver (r ∷ rs) results =
      then_called r.payload.callback (outcome r (or_object (first_result results)))
        (deliver rs (later_results results))

  -- The callback that sendBatch is given: it does not look at the error.
  unfoldable pub receive : Batch Big → Manager.Reply → Outcome Big
  unfolding deliver
  receive b (Manager.done (some (arr results))) = deliver b.requests (items results)
  receive b _ = deliver b.requests []

  -- The requests leave in one batch; the number stands for `receive` as the manager's callback.
  unfoldable pub execute :
      (Big → Text) → Manager → Batch Big → ℕ → Manager × List Payload × List Event
  execute to_text rm b receiver =
      Manager.send_batch rm (map (λ r. request_of to_text r.payload) b.requests) receiver
