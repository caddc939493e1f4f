-- ===== src/Filter.antt =====
-- filter.js of src/console/jsre/deps/web3.js: a filter of the node that the page watches. The
-- filter shares the request manager, which is passed along. Callbacks are numbers; a request that
-- leaves carries the purpose by which its reply is read.
pub mod Answers
pub mod Options
pub mod Lifetime
pub mod Returned
mod Tests
use ultron.Prelude.{
  ℕ, Bool, true, false, not, Option, none, some, List, [], ◌∷◌, ◌++◌, map, if◌then◌else◌,
}
use ultron.Text.{Text, codes}
use ultron.Json
use ultron.Json.{Json, items, truthy, property_key}
use ultron.Rpc.{Error, Request}
use ultron.Manager
use ultron.Manager.{Manager}
use ultron.Value.{Value, undefined, function}
use ultron.Method.{
  Method, Call, Formatter, Told, told_error, told, Invoked, invoke, fixed, computed,
}
use ultron.Method.Convert.{of_json}

-- The four methods of watches.js, for the chain or for whispers.
pub record Implementation (Big : Type 0) : Type 0 where
  pub new_filter : Method Big
  pub uninstall_filter : Method Big
  pub get_logs : Method Big
  -- The name of the method that polls.
  pub poll : Text

-- Whom the logs of a request go to: a callback that starts watching, or one that asked for them.
pub data Wanted : Type 0 where
  at_start : ℕ → Wanted
  asked : ℕ → Wanted

-- Why a request was made: to create the filter, with the callback that will watch it; for the logs
-- so far; to remove the filter.
pub data Purpose : Type 0 where
  create_filter : Option ℕ → Purpose
  logs : Wanted → Purpose
  uninstall : Option ℕ → Purpose

pub record Filter (Big : Type 0) : Type 0 where
  pub options : Value Big
  pub implementation : Implementation Big
  -- null until the node has answered.
  pub filter_id : Json
  pub callbacks : List ℕ
  -- Those that wait for the id to get the logs.
  pub get_logs_callbacks : List Wanted
  pub formatter : Option (Formatter Big)
  -- What the manager calls with a reply to a poll, and on a reset.
  pub on_message : ℕ
  pub stop : ℕ

pub record Sending (Big : Type 0) : Type 0 where
  pub purpose : Purpose
  pub invoked : Invoked Big

-- The manager and the filter after a step, what was sent, and the batches of polls, in order.
pub record Step (Big : Type 0) : Type 0 where
  pub manager : Manager
  pub filter : Filter Big
  pub sent : List (Sending Big)
  pub batches : List Manager.Batch

abbrev pub is_null : Json → Bool
is_null Json.null = true
is_null _ = false

abbrev pub is_string : {Big : Type 0} → Value Big → Bool
is_string (Value.str s) = true
is_string _ = false

abbrev pub callback_in : Wanted → ℕ
callback_in (at_start c) = c
callback_in (asked c) = c

-- A callback that may be missing, as an argument.
abbrev pub callback_args : {Big : Type 0} → Option ℕ → List (Value Big)
callback_args none = []
callback_args (some f) = function f ∷ []

abbrev pub batch_list : Option Manager.Batch → List Manager.Batch
batch_list none = []
batch_list (some b) = b ∷ []

module _ {Big : Type 0} (to_text : Big → Text) where
  -- One request by a method of the filter.
  abbrev pub sending : Purpose → Method Big → List (Value Big) → Step Big → Step Big
  sending purpose m args s =
      let result = invoke to_text s.manager m args in
      record s {
        manager = result.0;
        sent = s.sent ++ record { purpose = purpose; invoked = result.2 } ∷ [];
      }

  -- The constructor: the filter is asked for, and its id comes later, to the callback `on_created`.
  unfoldable pub create : Manager → Filter Big → ℕ → Option ℕ → Step Big
  create rm f on_created callback =
      sending (create_filter callback) f.implementation.new_filter
        (f.options ∷ function on_created ∷ [])
        (record { manager = rm; filter = f; sent = []; batches = [] })

  -- get with a callback, which waits while there is no id.
  unfoldable pub get : Step Big → Wanted → Step Big
  get s wanted =
      if is_null s.filter.filter_id
      then record s {
        filter = record (s.filter) {
          get_logs_callbacks = s.filter.get_logs_callbacks ++ wanted ∷ [];
        };
      }
      else sending (logs wanted) s.filter.implementation.get_logs
          (of_json s.filter.filter_id ∷ function (callback_in wanted) ∷ []) s

  -- getLogsAtStart: filters whose options are a text have no logs so far.
  unfoldable pub get_logs_at_start : Step Big → ℕ → Step Big
  unfolding get
  get_logs_at_start s callback = if is_string s.filter.options then s else get s (at_start callback)

  -- pollFilter
  unfoldable pub poll_filter : Step Big → Step Big
  unfolding property_key
  poll_filter s =
      let f = s.filter in
      let request : Request = record {
        method = f.implementation.poll;
        params = some (f.filter_id ∷ []);
      } in
      let started =
        Manager.start_polling s.manager request (property_key (some f.filter_id)) f.on_message
          f.stop in
      record s { manager = started.0; batches = s.batches ++ batch_list started.1 }

  unfoldable pub watch : Step Big → ℕ → Step Big
  unfolding get_logs_at_start poll_filter truthy
  watch s callback =
      let watched = record s {
        filter = record (s.filter) { callbacks = s.filter.callbacks ++ callback ∷ [] };
      } in
      if truthy (some s.filter.filter_id)
      then poll_filter (get_logs_at_start watched callback)
      else watched

  abbrev pub each : {A : Type 0} → (Step Big → A → Step Big) → List A → Step Big → Step Big
  each f [] s = s
  each f (c ∷ cs) s = each f cs (f s c)

  abbrev pub poll_if_watched : List ℕ → Step Big → Step Big
  poll_if_watched [] s = s
  poll_if_watched (c ∷ cs) s = poll_filter s

  abbrev pub watch_if : Option ℕ → Step Big → Step Big
  watch_if none s = s
  watch_if (some c) s = watch s c

  -- The node has answered with an id; `callback` is the one that the constructor was given.
  unfoldable pub created : Step Big → Json → Option ℕ → Step Big
  created s id callback =
      let known = record s { filter = record (s.filter) { filter_id = id } } in
      let asked = each get s.filter.get_logs_callbacks known in
      let cleared = record asked { filter = record (asked.filter) { get_logs_callbacks = [] } } in
      let started = each get_logs_at_start s.filter.callbacks cleared in
      watch_if callback (poll_if_watched s.filter.callbacks started)

  -- stopWatching, with a callback or without
  unfoldable pub stop_watching : Step Big → Option ℕ → Step Big
  unfolding property_key
  stop_watching s callback =
      sending (uninstall callback) s.filter.implementation.uninstall_filter
        (of_json s.filter.filter_id ∷ callback_args callback)
        (record s {
          manager = Manager.stop_polling s.manager (property_key (some s.filter.filter_id));
          filter = record (s.filter) { callbacks = [] };
        })
