-- ===== src/Rpc.antt =====
-- Jsonrpc and the errors of src/console/jsre/deps/web3.js: payloads with fresh ids, and the test
-- of a response. What toPayload prints for a missing method name is left out.
pub mod Ids
use ultron.Prelude.{
  ℕ, ◌+◌, Bool, true, false, not, ◌&&◌, Option, none, some, List, [], ◌∷◌, ◌++◌, map, if◌then◌else◌,
}
use ultron.Text.{Text, codes, text_eq, all}
use ultron.Json.{Json, Items, null, num, str, arr, items, member, truthy}

-- What web3.js makes an Error of.
pub data Error : Type 0 where
  invalid_number_of_params : Error
  invalid_connection : Text → Error
  invalid_provider : Error
  invalid_response : Option Json → Error
  connection_timeout : ℕ → Error

-- The message of an invalid response is that of the node's error, if it has one; `stringify` is
-- JSON.stringify.
unfoldable pub response_message : (Option Json → Text) → Option Json → Option Json
unfolding member truthy
response_message stringify result =
    if truthy result
      && truthy (member (codes "error") result)
      && truthy (member (codes "message") (member (codes "error") result))
    then member (codes "message") (member (codes "error") result)
    else some (str (codes "Invalid JSON RPC response: " ++ stringify result))

pub record Request : Type 0 where
  pub method : Text
  pub params : Option (List Json)

pub record Payload : Type 0 where
  pub jsonrpc : Text
  pub id : ℕ
  pub method : Text
  pub params : List Json

-- params || []
abbrev pub given : Option (List Json) → List Json
given none = []
given (some ps) = ps

-- Jsonrpc.messageId is the first argument, and its new value the second result.
unfoldable pub to_payload : ℕ → Request → Payload × ℕ
to_payload message_id r = (
  record { jsonrpc = codes "2.0"; id = message_id + 1; method = r.method; params = given r.params },
  message_id + 1,
)

unfoldable pub to_batch_payload : ℕ → List Request → List Payload × ℕ
unfolding to_payload
to_batch_payload message_id [] = ([], message_id)
to_batch_payload message_id (r ∷ rs) =
    let (payload, next) = to_payload message_id r in
    let (payloads, last) = to_batch_payload next rs in (payload ∷ payloads, last)

abbrev is_number : Option Json → Bool
is_number (some (num x)) = true
is_number _ = false

abbrev is_version : Option Json → Bool
is_version (some (str s)) = text_eq s (codes "2.0")
is_version _ = false

abbrev is_defined : Option Json → Bool
is_defined none = false
is_defined (some v) = true

unfoldable pub is_valid_message : Option Json → Bool
unfolding member truthy text_eq
is_valid_message message =
    truthy message
    && not (truthy (member (codes "error") message))
    && is_version (member (codes "jsonrpc") message)
    && is_number (member (codes "id") message)
    && is_defined (member (codes "result") message)

unfoldable pub is_valid_response : Option Json → Bool
is_valid_response (some (arr vs)) = all (λ v. is_valid_message (some v)) (items vs)
is_valid_response response = is_valid_message response
