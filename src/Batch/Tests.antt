-- ===== src/Batch/Tests.antt =====
-- A batch of two requests, of which one has a callback.
use ultron.Prelude.{◌≡◌, refl, false, none, some, [], ◌∷◌}
use ultron.Prelude.Int.{ℤ, pos}
use ultron.Text.{codes}
use ultron.Json.{Json, num, str, obj, field, end}
use ultron.Rpc.{invalid_connection}
use ultron.Manager.{failed}
use ultron.Method.{BatchRequest}
use ultron.Batch.{Batch, deliver, receive}
use ultron.Batch.Delivery.{
  called_back, callbacks, all_told, missing, called_back-deliver, receive-failed, AllCalm,
  no_request, request,
}

abbrev silent : BatchRequest ℤ
silent = record {
  payload = record { method = codes "eth_mining"; params = []; callback = none };
  format = some;
}

abbrev loud : BatchRequest ℤ
loud = record {
  payload = record { method = codes "eth_hashrate"; params = []; callback = some 4 };
  format = some;
}

abbrev reply : Json
reply = obj (
    field (codes "jsonrpc") (str (codes "2.0"))
      (field (codes "id") (num (pos 2)) (field (codes "result") (num (pos 7)) end)))

calm : AllCalm (silent ∷ loud ∷ [])
calm =
    request silent (loud ∷ []) (record { formatted = λ v. (v, refl) })
      (request loud [] (record { formatted = λ v. (v, refl) }) no_request)

called_back-deliver_example :
    (called_back (deliver (silent ∷ loud ∷ []) (Json.null ∷ reply ∷ [])).called
      ≡ callbacks (silent ∷ loud ∷ []))
    × ((deliver (silent ∷ loud ∷ []) (Json.null ∷ reply ∷ [])).broken_off ≡ false)
called_back-deliver_example = called_back-deliver (silent ∷ loud ∷ []) (Json.null ∷ reply ∷ []) calm

abbrev batch : Batch ℤ
batch = record { requests = silent ∷ loud ∷ [] }

receive-failed_example :
    ((receive batch (failed (invalid_connection (codes "node")))).called
      ≡ all_told missing (callbacks batch.requests))
    × ((receive batch (failed (invalid_connection (codes "node")))).broken_off ≡ false)
receive-failed_example = receive-failed batch (invalid_connection (codes "node"))
