-- ===== src/Syncing.antt =====
-- syncing.js of src/console/jsre/deps/web3.js: the page is told when the node starts to synchronise,
-- how far it is, and when it stops. The counter of pollSyncing's keys is passed along. An object of a
-- reply is the same object as no other, so that it differs from the last state until it becomes it.
pub mod Notices
mod Tests
use ultron.Prelude.{
  ℕ, ◌≡◌, ◌+◌, refl, sym, ap, ◌∙◌, Bool, true, false, not, ◌&&◌, Option, none, some, List, [], ◌∷◌,
  ◌++◌, if◌then◌else◌, map, ◌==◌,
}
use ultron.Prelude.Int.{pos}
use ultron.Text.{Text, codes, text_eq}
use ultron.Text.Number.{number_text, int}
use ultron.Rpc.{Error, Request}
use ultron.Manager
use ultron.Manager.{Manager}
use ultron.Value.{Value, Fields, undefined, null, bool, num, str, obj, arr, get, truthy}
use ultron.Method.{Told, told, told_error}
use ultron.Method.Convert.{of_answer}
use ultron.Messages.{Runtime}
use ultron.Messages.Outputs.{output_syncing}

pub record Syncing (Big : Type 0) : Type 0 where
  pub poll_id : Text
  pub callbacks : List ℕ
  pub last_sync_state : Value Big

-- A call of a callback, within the loop or on the next cycle.
pub data Call (Big : Type 0) : Type 0 where
  at_once : ℕ → Told Big → Call Big
  next_cycle : ℕ → Told Big → Call Big

-- What a message does; `broken_off` is an exception.
pub record Notice (Big : Type 0) : Type 0 where
  pub syncing : Syncing Big
  pub calls : List (Call Big)
  pub broken_off : Bool

module _ {Big : Type 0} where
  -- last === sync, for a sync that has just been read.
  abbrev pub same : Value Big → Value Big → Bool
  same undefined undefined = true
  same null null = true
  same (bool a) (bool b) = if a then b else not b
  same (num x) (num y) = text_eq (number_text (int x)) (number_text (int y))
  same (str s) (str t) = text_eq s t
  same _ _ = false

  -- utils.isObject: typeof null is 'object' too.
  abbrev pub is_object : Value Big → Bool
  is_object null = true
  is_object (arr vs) = true
  is_object (obj fs) = true
  is_object _ = false

  -- A callback is told about a start first.
  abbrev pub starting : ℕ → Value Big → Value Big → List (Call Big)
  starting c last sync =
      if not (truthy last) && is_object sync then at_once c (told (bool true)) ∷ [] else []

  abbrev pub notify : ℕ → Value Big → Value Big → List (Call Big)
  notify c last sync = starting c last sync ++ next_cycle c (told sync) ∷ []

  -- The loop over the callbacks; `current` says that the last state is this very sync.
  unfoldable pub each_callback : List ℕ → Bool → Value Big → Value Big → List (Call Big)
  unfolding truthy text_eq number_text
  each_callback [] current last sync = []
  each_callback (c ∷ cs) current last sync =
      let rest = each_callback cs true sync sync in
      let unchanged = each_callback cs current last sync in
      if current
      then unchanged
      else if same last sync
      then unchanged
      else notify c last sync ++ rest

  -- The state behind the loop.
  abbrev pub last_after : List ℕ → Value Big → Value Big → Value Big
  last_after [] last sync = last
  last_after (c ∷ cs) last sync = sync

  abbrev pub notice : Syncing Big → Option (Value Big) → Notice Big
  notice s none = record { syncing = s; calls = []; broken_off = true }
  notice s (some sync) = record {
    syncing = record s { last_sync_state = last_after s.callbacks s.last_sync_state sync };
    calls = each_callback s.callbacks false s.last_sync_state sync;
    broken_off = false;
  }

  abbrev pub tell_errors : List ℕ → Error → List (Call Big)
  tell_errors cs e = map (λ c. at_once c (told_error e)) cs

module _ (rt : Runtime) where
  open rt.big_number use {Big}

  -- Formatted if it is an object with a true startingBlock; null has no properties.
  unfoldable pub format_sync : Value Big → Option (Value Big)
  unfolding truthy get output_syncing
  format_sync null = none
  format_sync (obj fs) =
      if truthy (get (codes "startingBlock") fs) then output_syncing rt (obj fs) else some (obj fs)
  format_sync v = some v

  -- onMessage of pollSyncing
  unfoldable pub on_message : Syncing Big → Manager.Reply → Notice Big
  unfolding format_sync each_callback of_answer
  on_message s (Manager.failed e) = record {
    syncing = s;
    calls = tell_errors s.callbacks e;
    broken_off = false;
  }
  on_message s (Manager.done result) = notice s (format_sync (of_answer result))

-- What pollSyncing polls; `on` and `stop` are the filter's own callbacks.
abbrev pub sync_request : Request
sync_request = record { method = codes "eth_syncing"; params = some [] }

abbrev pub given_list : Option ℕ → List ℕ
given_list none = []
given_list (some c) = c ∷ []

module _ {Big : Type 0} where
  unfoldable pub add_callback : Syncing Big → Option ℕ → Syncing Big
  add_callback s callback = record s { callbacks = s.callbacks ++ given_list callback }

  -- The constructor: the counter, the manager, the batch of the first poll and the object.
  unfoldable pub create :
      ℕ → Manager → Option ℕ → ℕ → ℕ → ℕ × Manager × Option Manager.Batch × Syncing Big
  unfolding add_callback number_text
  create count rm callback on stop =
      let s : Syncing Big = record {
        poll_id = codes "syncPoll_" ++ number_text (int (pos count));
        callbacks = [];
        last_sync_state = bool false;
      } in
      let polled = Manager.start_polling rm sync_request s.poll_id on stop in
      (count + 1, polled.0, polled.1, add_callback s callback)

  unfoldable pub stop_watching : Manager → Syncing Big → Manager × Syncing Big
  stop_watching rm s = (Manager.stop_polling rm s.poll_id, record s { callbacks = [] })
