-- ===== src/Manager.antt =====
-- RequestManager of src/console/jsre/deps/web3.js: requests to the provider, and the polls that
-- one timer drives. The state holds the manager, Jsonrpc's counter and the timers that run.
-- A callback is a number, and calls of callbacks are events, in order; they return. What is printed
-- to the console is left out.
pub mod Invariant
pub mod Replies
pub mod Reset
pub mod Resetting
pub mod Sending
mod Tests
use ultron.Prelude.{
  ℕ, ◌+◌, Bool, true, false, not, ◌&&◌, ◌||◌, Option, none, some, List, [], ◌∷◌, ◌++◌, map,
  if◌then◌else◌, ◌==◌,
}
use mathlib.Core.Option
use ultron.Text.{Text, codes}
use ultron.Text.Number.{int, number_text}
use ultron.Prelude.Int.{pos}
use ultron.Json.{Json, null, arr, items, member, truthy, property_key}
use ultron.Dictionary.{lookup, insert, erase}
use ultron.Rpc.{
  Error, invalid_provider, invalid_response, Request, Payload, to_payload, to_batch_payload,
  is_valid_response,
}

pub record Poll : Type 0 where
  pub request : Request
  pub callback : ℕ
  pub uninstall : ℕ

-- The provider's synchronous call.
pub record Provider : Type 0 where
  pub send : Payload → Option Json

pub record Manager : Type 0 where
  pub provider : Option Provider
  pub polls : List (Text × Poll)
  pub timeout : Option ℕ
  pub message_id : ℕ
  -- The timers that will fire, and how many were made.
  pub running : List ℕ
  pub timers : ℕ

pub data Reply : Type 0 where
  failed : Error → Reply
  done : Option Json → Reply

pub data Event : Type 0 where
  called : ℕ → Reply → Event
  uninstalled : ℕ → Event

abbrev pub remove : ℕ → List ℕ → List ℕ
remove t [] = []
remove t (u ∷ us) = if u == t then remove t us else u ∷ remove t us

abbrev is_empty {ℓ} : {A : Type ℓ} → List A → Bool
is_empty [] = true
is_empty (x ∷ xs) = false

pub data Sent : Type 0 where
  returned : Option Json → Sent
  thrown : Error → Sent

abbrev pub answer : Option Json → Sent
answer result =
    if is_valid_response result
    then returned (member (codes "result") result)
    else thrown (invalid_response result)

-- send: null without a provider, an error for a response that is not valid.
unfoldable pub send : Manager → Request → Manager × Sent
unfolding to_payload is_valid_response
send m data_ = elim m.provider [
  | none ↦ (m, returned (some null))
  | some p ↦
      let (payload, next) = to_payload m.message_id data_ in
      (record m { message_id = next }, answer (p.send payload))
]

-- sendAsync: a payload leaves, or the callback has its error at once.
unfoldable pub send_async : Manager → Request → ℕ → Manager × Option Payload × List Event
unfolding to_payload
send_async m data_ callback = elim m.provider [
  | none ↦ (m, none, called callback (failed invalid_provider) ∷ [])
  | some p ↦
      let (payload, next) = to_payload m.message_id data_ in
      (record m { message_id = next }, some payload, [])
]

-- What the provider calls back: an error, or a result.
pub data Arrival : Type 0 where
  broken : Error → Arrival
  arrived : Option Json → Arrival

unfoldable pub receive_async : ℕ → Arrival → List Event
unfolding is_valid_response member
receive_async callback (broken e) = called callback (failed e) ∷ []
receive_async callback (arrived result) =
    if is_valid_response result
    then called callback (done (member (codes "result") result)) ∷ []
    else called callback (failed (invalid_response result)) ∷ []

unfoldable pub send_batch : Manager → List Request → ℕ → Manager × List Payload × List Event
unfolding to_batch_payload
send_batch m data_ callback = elim m.provider [
  | none ↦ (m, [], called callback (failed invalid_provider) ∷ [])
  | some p ↦
      let (payloads, next) = to_batch_payload m.message_id data_ in
      (record m { message_id = next }, payloads, [])
]

unfoldable pub receive_batch : ℕ → Arrival → List Event
receive_batch callback (broken e) = called callback (failed e) ∷ []
receive_batch callback (arrived (some (arr results))) =
    called callback (done (some (arr results))) ∷ []
receive_batch callback (arrived results) = called callback (failed (invalid_response results)) ∷ []

unfoldable pub set_provider : Manager → Option Provider → Manager
set_provider m p = record m { provider = p }

-- this.timeout = setTimeout(...)
unfoldable pub set_timer : Manager → Manager
set_timer m =
    let t = m.timers + 1 in record m { timeout = some t; running = t ∷ m.running; timers = t }

-- The batch that a poll sends, with the key of the poll that each request id stands for.
pub record Batch : Type 0 where
  pub payloads : List Payload
  pub poll_keys : List (Text × Text)

abbrev pub id_keys : List Payload → List (Text × Poll) → List (Text × Text)
id_keys (p ∷ ps) ((key, _) ∷ rest) = (number_text (int (pos p.id)), key) ∷ id_keys ps rest
id_keys _ _ = []

unfoldable pub poll : Manager → Manager × Option Batch
unfolding set_timer
poll m =
    let m' = set_timer m in
    elim m.polls [
      | [] ↦ (m', none)
      | entry ∷ rest ↦ elim m.provider [
        | none ↦ (m', none)
        | some p ↦
            let (payloads, next) =
              to_batch_payload m.message_id (map (λ (_, q). q.request) (entry ∷ rest)) in
            (
              record m' { message_id = next },
              some (record { payloads = payloads; poll_keys = id_keys payloads (entry ∷ rest) }),
            )
      ]
    ]

-- The poll that a reply names by its id, if it is still there: its callback, and the reply. An id
-- that no request had stands for the key `undefined`.
unfoldable pub poll_key : List (Text × Text) → Json → Text
poll_key poll_keys reply =
    elim (lookup (property_key (member (codes "id") (some reply))) poll_keys) [
      | none ↦ codes "undefined"
      | some key ↦ key
    ]

unfoldable pub claim : Manager → List (Text × Text) → Json → Option ℕ
claim m poll_keys reply =
    Option.map (λ (p : Poll). p.callback) (lookup (poll_key poll_keys reply) m.polls)

-- First every invalid reply is reported, then every valid one is passed on.
abbrev pub event_for : Bool → ℕ → Json → List Event
event_for valid callback reply =
    if is_valid_response (some reply)
    then (if valid then called callback (done (member (codes "result") (some reply))) ∷ [] else [])
    else if valid
    then []
    else called callback (failed (invalid_response (some reply))) ∷ []

unfoldable pub events : Manager → List (Text × Text) → Bool → List Json → List Event
unfolding claim
events m poll_keys valid [] = []
events m poll_keys valid (reply ∷ rest) =
    elim (claim m poll_keys reply) [ none ↦ [] | some callback ↦ event_for valid callback reply ]
    ++ events m poll_keys valid rest

abbrev pub is_null : Json → Bool
is_null null = true
is_null _ = false

abbrev pub any {ℓ} : {A : Type ℓ} → (A → Bool) → List A → Bool
any p [] = false
any p (x ∷ xs) = p x || any p xs

-- `raised` is an error that the handler throws, `type_error` the one for a property of null.
pub data Delivery : Type 0 where
  delivered : List Event → Delivery
  raised : Error → Delivery
  type_error : Delivery

-- What `poll` does when the provider calls back.
unfoldable pub receive_poll : Manager → List (Text × Text) → Arrival → Delivery
unfolding events
receive_poll m poll_keys (broken e) = delivered []
receive_poll m poll_keys (arrived (some (arr results))) =
    if any is_null (items results)
    then type_error
    else delivered
        (events m poll_keys false (items results) ++ events m poll_keys true (items results))
receive_poll m poll_keys (arrived results) = raised (invalid_response results)

unfoldable pub start_polling : Manager → Request → Text → ℕ → ℕ → Manager × Option Batch
start_polling m data_ poll_id callback uninstall =
    let m' = record m {
      polls =
          insert poll_id (record { request = data_; callback = callback; uninstall = uninstall })
            m.polls;
    } in
    elim m.timeout [ none ↦ poll m' | some t ↦ (m', none) ]

-- The timer stops when no poll is left.
unfoldable pub stop_timer : Manager → Manager
stop_timer m = elim m.timeout [
  | none ↦ m
  | some t ↦
      if is_empty m.polls then record m { timeout = none; running = remove t m.running } else m
]

unfoldable pub stop_polling : Manager → Text → Manager
stop_polling m poll_id = stop_timer (record m { polls = erase poll_id m.polls })

-- A timer that runs fires: it is spent, and polls.
unfoldable pub fire : Manager → ℕ → Manager × Option Batch
fire m t = poll (record m { running = remove t m.running })
