-- ===== src/Http.antt =====
-- httpprovider.js of src/console/jsre/deps/web3.js: requests over HTTP. The two classes of requests are
-- other projects' code: what they do is what `exchange` answers, and the events of an asynchronous
-- request. Callbacks are numbers.
pub mod Repeated
mod Tests
use ultron.Prelude.{
  ℕ, Bool, true, false, not, ◌&&◌, Option, none, some, List, [], ◌∷◌, ◌++◌, if◌then◌else◌, ◌==◌,
}
use mathlib.Core.Option
use ultron.Text.{Text, codes}
use ultron.Json.{Json, str}
use ultron.Rpc.{Error, Payload, invalid_connection, invalid_response, connection_timeout}
use ultron.Manager.{Arrival, broken, arrived}

pub record HttpProvider : Type 0 where
  pub host : Text
  pub timeout : ℕ

-- What prepareRequest opens: an asynchronous request has a time limit, 0 for none.
pub record Request : Type 0 where
  pub host : Text
  pub asynchronous : Bool
  pub timeout : ℕ

pub data Answer : Type 0 where
  returned : Json → Answer
  thrown : Error → Answer

-- An event of an asynchronous request: a change of its state, with the text that it has then, or the
-- end of its time.
pub data Occurrence : Type 0 where
  ready_state : ℕ → Text → Occurrence
  timed_out : Occurrence

-- A call of a callback.
pub record Call : Type 0 where
  pub callback : ℕ
  pub arrival : Arrival

abbrev host_or : Option Text → Text
host_or none = codes "http://localhost:8545"
host_or (some []) = codes "http://localhost:8545"
host_or (some (c ∷ s)) = c ∷ s

abbrev timeout_or : Option ℕ → ℕ
timeout_or none = 0
timeout_or (some n) = n

unfoldable pub create : Option Text → Option ℕ → HttpProvider
create host timeout = record { host = host_or host; timeout = timeout_or timeout }

unfoldable pub prepare_request : HttpProvider → Bool → Request
prepare_request p asynchronous = record {
  host = p.host;
  asynchronous = asynchronous;
  timeout = if asynchronous then p.timeout else 0;
}

-- What net_listening is asked with; its id is 9999999999.
abbrev pub listening : Payload
listening = record {
  jsonrpc = codes "2.0";
  id = 9999999999;
  method = codes "net_listening";
  params = [];
}

-- `parse` is JSON.parse and `stringify` is JSON.stringify; `exchange` is the text that a synchronous
-- request brings; `none` is an exception.
module _ (parse : Text → Option Json) where
  abbrev parsed : Text → Option Json → Answer
  parsed text none = thrown (invalid_response (some (str text)))
  parsed text (some v) = returned v

  abbrev parsed_arrival : Text → Option Json → Arrival
  parsed_arrival text none = broken (invalid_response (some (str text)))
  parsed_arrival text (some v) = arrived (some v)

  -- onreadystatechange and ontimeout
  unfoldable pub occurs : Request → ℕ → Occurrence → List Call
  occurs r callback (ready_state state text) =
      if state == 4 && not (r.timeout == 1)
      then record { callback = callback; arrival = parsed_arrival text (parse text) } ∷ []
      else []
  occurs r callback timed_out =
      record { callback = callback; arrival = broken (connection_timeout r.timeout) } ∷ []

  unfoldable pub occur_all : Request → ℕ → List Occurrence → List Call
  unfolding occurs
  occur_all r callback [] = []
  occur_all r callback (o ∷ os) = occurs r callback o ++ occur_all r callback os

  module _ {Message : Type 0} (stringify : Message → Text)
      (exchange : Request → Text → Option Text) where
    abbrev answered : HttpProvider → Option Text → Answer
    answered p none = thrown (invalid_connection p.host)
    answered p (some text) = parsed text (parse text)

    unfoldable pub send : HttpProvider → Message → Answer
    unfolding prepare_request
    send p m = answered p (exchange (prepare_request p false) (stringify m))

    -- `accepted` says whether the request could be sent; then its events follow.
    unfoldable pub send_async : HttpProvider → Bool → ℕ → List Occurrence → List Call
    unfolding prepare_request occur_all
    send_async p accepted callback os =
        if accepted
        then occur_all (prepare_request p true) callback os
        else record { callback = callback; arrival = broken (invalid_connection p.host) } ∷ []

  abbrev is_returned : Answer → Bool
  is_returned (returned v) = true
  is_returned (thrown e) = false

  unfoldable pub is_connected :
      (Payload → Text) → (Request → Text → Option Text) → HttpProvider → Bool
  unfolding send
  is_connected stringify exchange p = is_returned (send stringify exchange p listening)
