-- ===== src/Syncing/Tests.antt =====
-- Two callbacks that wait for the node to synchronise.
use ultron.Prelude.{◌≡◌, refl, true, false, some, [], ◌∷◌, replicate}
use ultron.Prelude.Int.{ℤ}
use ultron.Text.{codes}
use ultron.Json.{Json}
use ultron.BigNumber.Integers.{integers}
use ultron.Manager.{done}
use ultron.Value.{bool}
use ultron.Method.{told}
use ultron.Messages.{Runtime}
use ultron.Syncing.{Syncing, next_cycle, on_message}
use ultron.Syncing.Notices.{on_message-first}

abbrev runtime : Runtime
runtime = record {
  big_number = integers;
  sha3 = λ t. replicate 64 b'f';
  utf8_encode = λ t. t;
  is_finite = λ t. true;
  stringify = λ v. codes "{}";
}

abbrev waiting : Syncing ℤ
waiting = record {
  poll_id = codes "syncPoll_1";
  callbacks = 4 ∷ 5 ∷ [];
  last_sync_state = bool true;
}

only_first :
    (on_message runtime waiting (done (some (Json.bool false)))).calls
    ≡ next_cycle 4 (told (bool false)) ∷ []
unfolding on_message
only_first = refl

on_message-first_example :
    (on_message runtime
      (record waiting { callbacks = 4 ∷ 5 ∷ [] })
      (done (some (Json.bool false)))).calls
    ≡ (on_message runtime
        (record waiting { callbacks = 4 ∷ [] })
        (done (some (Json.bool false)))).calls
on_message-first_example = on_message-first runtime waiting 4 (5 ∷ []) (some (Json.bool false))
