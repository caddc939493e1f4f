-- ===== src/Ipc/Tests.antt =====
-- Chunks that are taken apart, a request that is broken off, and a text that blocks the provider.
use ultron.Prelude.{
  ℕ, Bool, false, ◌≤◌, ◌+◌, ◌≡◌, refl, true, Option, none, some, [], ◌∷◌, if◌then◌else◌,
}
use ultron.Text.{Text, codes, starts_with, text_eq}
use ultron.Text.Number.{number_text}
use ultron.Text.Radix.{digits}
use ultron.Json.{Json, bool, num, obj, field, end, member}
use ultron.Dictionary.{insert, lookup, erase}
use ultron.Rpc.{Payload, invalid_connection}
use ultron.Prelude.Int.{pos}
use ultron.Manager.{Arrival, arrived, broken}
use ultron.Ipc.{
  IpcProvider, Connection, Message, single, create, on_data, fire, timeout, send_async, ensure,
  add_response_callback, written, called, deliver, id_of, keep_chunk,
}
use ultron.Ipc.Chunks.{dechunk}
use ultron.Ipc.Pending.{calls, pending}
use ultron.Ipc.Runs.{made, sent, ended, Reach-calls_le}
use ultron.Ipc.Stuck.{IsStuck, on_data-IsStuck}

taken_apart :
    dechunk (codes "{\"id\":1}\n{\"id\":2}[{\"id\":3}]{}")
    ≡ codes "{\"id\":1}" ∷ codes "{\"id\":2}" ∷ codes "[{\"id\":3}]" ∷ codes "{}" ∷ []
unfolding dechunk
taken_apart = refl

-- A closing brace begins no JSON.
abbrev parse : Text → Option Json
parse s = if starts_with (codes "}") s then none else some (bool true)

abbrev stringify : Message → Text
stringify m = codes "{}"

abbrev socket : Connection
socket = record { writable = true; write_sync = none }

abbrev fresh : IpcProvider
fresh = create (codes "geth.ipc") socket

abbrev payload : Payload
payload = record { jsonrpc = codes "2.0"; id = 1; method = codes "net_version"; params = [] }

abbrev waiting : IpcProvider
waiting = record fresh {
  response_callbacks = (codes "1", record { callback = 7; method = codes "net_version" }) ∷ [];
}

sends :
    send_async parse stringify (λ c. c) fresh (single payload) 7
    ≡ some (waiting, written (codes "{}") ∷ [])
unfolding send_async ensure add_response_callback insert number_text digits create
sends = refl

-- A callback that takes no answer, only errors.
abbrev throws : ℕ → Arrival → Bool
throws c (arrived v) = true
throws c (broken e) = false

Reach-calls_le_example :
    0
      + calls throws (written (codes "{}") ∷ [])
      + calls throws (timeout throws waiting).1
      + pending (timeout throws waiting).0
    ≤ 1
Reach-calls_le_example =
    Reach-calls_le throws parse stringify (λ c. c) (timeout throws waiting).0 1
      (0 + calls throws (written (codes "{}") ∷ []) + calls throws (timeout throws waiting).1)
      (ended waiting 1 (0 + calls throws (written (codes "{}") ∷ [])) (
        sent fresh waiting (written (codes "{}") ∷ []) (single payload) 7 0 0
          (made (codes "geth.ipc") socket) sends))

-- A callback that throws is called with its answer, and again when the connection ends.
called_twice :
    (deliver throws waiting (obj (field (codes "id") (num (pos 1)) end)) ≡ (
      waiting,
      called 7 (arrived (some (obj (field (codes "id") (num (pos 1)) end)))) ∷ [],
      true,
    ))
    × ((timeout throws waiting).1 ≡ called 7 (broken (invalid_connection (codes "on IPC"))) ∷ [])
unfolding deliver timeout lookup erase member id_of number_text digits text_eq
called_twice = (refl, refl)

abbrev blocked : IpcProvider
blocked = keep_chunk fresh (codes "}")

blocked-IsStuck : IsStuck parse blocked
unfolding keep_chunk starts_with
blocked-IsStuck = record { chunk = codes "}"; kept = refl; hopeless = λ s. refl }

on_data-IsStuck_example :
    ((on_data throws parse blocked (codes "{}")).1 ≡ [])
    × IsStuck parse (on_data throws parse blocked (codes "{}")).0
    × IsStuck parse (fire throws blocked 1 (codes "}")).0
on_data-IsStuck_example =
    on_data-IsStuck parse throws blocked (codes "{}") 1 (codes "}") blocked-IsStuck
