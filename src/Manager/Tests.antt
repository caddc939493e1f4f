-- ===== src/Manager/Tests.antt =====
-- A session with the request manager, and the theorems at it.
use ultron.Prelude.{ℕ, ◌≡◌, ◌≢◌, refl, true, false, none, some, [], ◌∷◌, ◌++◌, map, if◌then◌else◌}
use ultron.Prelude.Int.{pos}
use ultron.Text.{Text, codes, text_eq}
use ultron.Text.Radix.{digits}
use ultron.Text.Number.{number_text}
use ultron.Json.{Json, num, str, arr, obj, of_list, field, end, member, truthy}
use ultron.Dictionary.{lookup, insert, erase}
use ultron.Rpc.{Request, to_payload, to_batch_payload, is_valid_response, is_valid_message}
use ultron.Rpc.Ids.{to_batch_payload_lem}
use ultron.Manager.{
  Manager, Provider, Batch, delivered, returned, uninstalled, arrived, send, poll, start_polling,
  stop_polling, stop_timer, receive_poll,
}
use ultron.Manager.Reset.{reset, reset_polls, stays, Undo, run_undo}
use ultron.Manager.Resetting.{IsDistinct, AllUndone, IsAnswering, reset-all}
use ultron.Manager.Invariant.{IsScheduled, Reach, here, next, start, initial, Reach-IsScheduled}
use ultron.Manager.Replies.{told_in, Answered, no_more, one_more, receive_poll-poll}
use ultron.Manager.Sending.{stop_polling-start_polling, send-returned}

abbrev ask : Request
ask = record { method = codes "eth_getFilterChanges"; params = none }

abbrev reply_to : ℕ → Json
reply_to n = obj (
    field (codes "jsonrpc") (str (codes "2.0"))
      (field (codes "id") (num (pos n)) (field (codes "result") (num (pos 7)) end)))

abbrev echo : Provider
echo = record { send = λ p. some (reply_to p.id) }

abbrev fresh : Manager
fresh = initial (some echo)

abbrev key : Text
key = codes "0x1"

abbrev watching : Manager
watching = record {
  provider = some echo;
  polls = (key, record { request = ask; callback = 1; uninstall = 2 }) ∷ [];
  timeout = some 1;
  message_id = 1;
  running = 1 ∷ [];
  timers = 1;
}

abbrev batch : Batch
batch = record {
  payloads =
      record { jsonrpc = codes "2.0"; id = 2; method = codes "eth_getFilterChanges"; params = [] }
      ∷ [];
  poll_keys = (codes "2", key) ∷ [];
}

session : Unit {0}
unfolding start_polling poll insert to_batch_payload send receive_poll lookup
session = tt

start_runs : (start_polling fresh ask key 1 2).0 ≡ watching
unfolding session
start_runs = refl

poll_runs : (poll watching).1 ≡ some batch
unfolding session digits number_text
poll_runs = refl

watching-Reach : Reach fresh watching
watching-Reach = rw (← start_runs) (next here (start fresh ask key 1 2))

Reach-IsScheduled_example : IsScheduled watching
Reach-IsScheduled_example = Reach-IsScheduled (some echo) watching-Reach

to_batch_payload_example :
    (map (λ p. p.id) (to_batch_payload 4 (ask ∷ ask ∷ [])).0 ≡ 5 ∷ 6 ∷ [])
    × (map (λ p. p.method) (to_batch_payload 4 (ask ∷ ask ∷ [])).0 ≡ ask.method ∷ ask.method ∷ [])
    × (map (λ p. p.params) (to_batch_payload 4 (ask ∷ ask ∷ [])).0 ≡ [] ∷ [] ∷ [])
    × ((to_batch_payload 4 (ask ∷ ask ∷ [])).1 ≡ 6)
to_batch_payload_example = to_batch_payload_lem 4 (ask ∷ ask ∷ [])

-- Two polls are answered in the other order, and one reply is not valid.
abbrev both : Manager
both = record watching {
  polls =
      (key, record { request = ask; callback = 1; uninstall = 2 })
      ∷ (codes "0x2", record { request = ask; callback = 3; uninstall = 4 })
      ∷ [];
}

abbrev both_batch : Batch
both_batch = record {
  payloads = (to_payload 1 ask).0 ∷ (to_payload 2 ask).0 ∷ [];
  poll_keys = (codes "2", key) ∷ (codes "3", codes "0x2") ∷ [];
}

abbrev failure : ℕ → Json
failure n = obj (field (codes "id") (num (pos n)) end)

both_polled : (poll both).1 ≡ some both_batch
unfolding session digits number_text to_payload
both_polled = refl

both-Answered : Answered both both_batch (reply_to 3 ∷ failure 2 ∷ []) (codes "0x2" ∷ key ∷ [])
unfolding member to_payload
both-Answered =
    one_more 1 (to_payload 2 ask).0 (codes "0x2")
      (record { request = ask; callback = 3; uninstall = 4 }) (reply_to 3) (failure 2 ∷ [])
      (key ∷ []) refl refl refl
      (one_more 0 (to_payload 1 ask).0 key (record { request = ask; callback = 1; uninstall = 2 })
        (failure 2) [] [] refl refl refl no_more)

receive_poll-poll_example :
    receive_poll both both_batch.poll_keys
      (arrived (some (arr (of_list (reply_to 3 ∷ failure 2 ∷ [])))))
    ≡ delivered (
        told_in false both (reply_to 3 ∷ failure 2 ∷ []) (codes "0x2" ∷ key ∷ [])
        ++ told_in true both (reply_to 3 ∷ failure 2 ∷ []) (codes "0x2" ∷ key ∷ []))
receive_poll-poll_example =
    receive_poll-poll both both both_batch (reply_to 3 ∷ failure 2 ∷ []) (codes "0x2" ∷ key ∷ [])
      both_polled both-Answered

stop_polling-start_polling_example :
    (lookup key (start_polling fresh ask key 1 2).0.polls ≡ (
      if text_eq key key
      then some (record { request = ask; callback = 1; uninstall = 2 })
      else lookup key fresh.polls))
    × (lookup key (stop_polling (start_polling fresh ask key 1 2).0 key).polls
        ≡ (if text_eq key key then none else lookup key fresh.polls))
stop_polling-start_polling_example = stop_polling-start_polling fresh ask key key 1 2

watching-IsScheduled : IsScheduled watching
watching-IsScheduled = record { single = refl; busy = λ n e. cc; idle = λ e. absurd (cc e) }

-- What the functions that uninstall the polls do: it stops its poll and sends a request.
abbrev undo : ℕ → Undo
undo u = record { key = key; request = some ask; breaks = false }

watching-IsDistinct : IsDistinct watching.polls
unfolding lookup
watching-IsDistinct = (refl, tt)

watching-AllUndone : AllUndone undo watching.polls
watching-AllUndone = (refl, refl, tt)

echo-IsAnswering : IsAnswering watching.provider
unfolding session member is_valid_response is_valid_message
echo-IsAnswering = λ q. refl

reset-all_example :
    ((reset (run_undo undo) watching false).manager.polls ≡ [])
    × ((reset (run_undo undo) watching false).manager.timeout ≡ none)
    × ((reset (run_undo undo) watching false).manager.running ≡ [])
    × ((reset (run_undo undo) watching false).events
        ≡ map (λ (_, p). uninstalled p.uninstall) watching.polls)
    × ((reset (run_undo undo) watching false).broken_off ≡ false)
reset-all_example =
    reset-all undo watching watching-IsScheduled watching-IsDistinct watching-AllUndone
      echo-IsAnswering

-- A function that throws leaves its own poll stopped, and all that follow, with their timer.
reset_breaks :
    (map
        (λ (k, _). k)
        (reset
          (run_undo (λ u. record { key = key; request = some ask; breaks = true }))
          both
          false).manager.polls
      ≡ codes "0x2" ∷ [])
    × ((reset
          (run_undo (λ u. record { key = key; request = some ask; breaks = true }))
          both
          false).broken_off
        ≡ true)
unfolding reset reset_polls run_undo stop_polling stop_timer session erase stays text_eq
reset_breaks = (refl, refl)

send_runs : (send fresh ask).1 ≡ returned (some (num (pos 7)))
unfolding session member is_valid_response is_valid_message
send_runs = refl

send-returned_example :
    (truthy (member (codes "error") (some (reply_to 1))) ≡ false)
    × (some (num (pos 7)) ≡ member (codes "result") (some (reply_to 1)))
    × (some (num (pos 7)) ≢ none)
    × ((send fresh ask).0.message_id ≡ (to_payload 0 ask).0.id)
unfolding to_payload
send-returned_example =
    send-returned fresh echo ask (some (reply_to 1)) (some (num (pos 7))) refl refl (λ h. h)
      send_runs
