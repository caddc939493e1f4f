-- ===== src/Manager/Reset.antt =====
-- reset of the request manager of src/console/jsre/deps/web3.js. It calls the function that each poll
-- brought along to uninstall it: stopWatching of filter.js or of syncing.js, for the polls of web3.
use ultron.Prelude.{ℕ, Bool, true, false, ◌&&◌, ◌||◌, Option, none, some, List, [], ◌∷◌, map}
use ultron.Text.{Text, codes, contains}
use ultron.Dictionary.{lookup, erase}
use ultron.Rpc.{Request}
use ultron.Manager.{
  Manager, Poll, Event, uninstalled, Sent, returned, thrown, send, stop_timer, stop_polling,
}

-- key.indexOf('syncPoll_') !== -1, where sync polls are kept
unfoldable pub stays : Bool → Text → Bool
unfolding contains
stays keep_is_syncing key = keep_is_syncing && contains (codes "syncPoll_") key

abbrev pub keys_of : List (Text × Poll) → List Text
keys_of = map (λ (key, _). key)

-- An exception of a function that uninstalls breaks the reset off.
pub record Reset : Type 0 where
  pub manager : Manager
  pub events : List Event
  pub broken_off : Bool

abbrev pub after_uninstall : ℕ → Reset → Reset
after_uninstall u rest = record rest { events = uninstalled u ∷ rest.events }

-- The loop over the keys. One that an earlier function has deleted is passed over. `uninstall` is
-- what a function makes of the manager, and whether it throws.
unfoldable pub reset_polls : (ℕ → Manager → Manager × Bool) → Bool → List Text → Manager → Reset
unfolding stays
reset_polls uninstall keep_is_syncing [] m = record {
  manager = stop_timer m;
  events = [];
  broken_off = false;
}
reset_polls uninstall keep_is_syncing (key ∷ keys) m = elim (stays keep_is_syncing key) [
  | true ↦ reset_polls uninstall keep_is_syncing keys m
  | false ↦ elim (lookup key m.polls) [
    | none ↦ reset_polls uninstall keep_is_syncing keys m
    | some p ↦ elim (uninstall p.uninstall m).1 [
      | true ↦ record {
        manager = (uninstall p.uninstall m).0;
        events = uninstalled p.uninstall ∷ [];
        broken_off = true;
      }
      | false ↦
          let m' = (uninstall p.uninstall m).0 in
          after_uninstall p.uninstall
            (reset_polls uninstall keep_is_syncing keys (record m' { polls = erase key m'.polls }))
    ]
  ]
]

unfoldable pub reset : (ℕ → Manager → Manager × Bool) → Manager → Bool → Reset
unfolding reset_polls
reset uninstall m keep_is_syncing = reset_polls uninstall keep_is_syncing (keys_of m.polls) m

-- stopWatching without a callback: the key of the poll that it stops, and the request that it then
-- sends, which syncing.js has not. `breaks` if the send of the provider throws, as it does over a
-- connection that has failed, or over IPC without writeSync.
pub record Undo : Type 0 where
  pub key : Text
  pub request : Option Request
  pub breaks : Bool

abbrev pub is_thrown : Sent → Bool
is_thrown (returned v) = false
is_thrown (thrown e) = true

abbrev pub is_there {ℓ} : {A : Type ℓ} → Option A → Bool
is_there none = false
is_there (some x) = true

unfoldable pub run_undo : (ℕ → Undo) → ℕ → Manager → Manager × Bool
unfolding stop_polling send
run_undo undo u m =
    let m' = stop_polling m (undo u).key in
    elim (undo u).request [
      | none ↦ (m', false)
      | some r ↦
          ((send m' r).0, ((undo u).breaks && is_there m'.provider) || is_thrown (send m' r).1)
    ]
