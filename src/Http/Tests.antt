-- ===== src/Http/Tests.antt =====
-- A request that runs out of time after its head has come.
use ultron.Prelude.{ℕ, ◌≡◌, refl, true, Option, none, some, [], ◌∷◌, ◌++◌}
use ultron.Text.{Text, codes}
use ultron.Json.{Json, str, bool}
use ultron.Rpc.{invalid_response, connection_timeout}
use ultron.Manager.{broken}
use ultron.Http.{HttpProvider, Request, ready_state, timed_out, send_async, is_connected, create}
use ultron.Http.Repeated.{changes, send_async-timed_out}

abbrev parse : Text → Option Json
parse [] = none
parse (c ∷ s) = some (bool true)

abbrev local : HttpProvider
local = create none (some 500)

abbrev stringify {ℓ} : {A : Type ℓ} → A → Text
stringify x = codes "{}"

abbrev exchange : Request → Text → Option Text
exchange r body = some (codes "true")

connects : is_connected parse stringify exchange local ≡ true
unfolding is_connected
connects = refl

send_async-timed_out_example :
    send_async parse {Message = ℕ} stringify exchange local true 3
      (changes (1 ∷ 2 ∷ []) ++ ready_state 4 [] ∷ timed_out ∷ [])
    ≡ record { callback = 3; arrival = broken (invalid_response (some (str []))) }
      ∷ record { callback = 3; arrival = broken (connection_timeout local.timeout) }
      ∷ []
unfolding create
send_async-timed_out_example =
    send_async-timed_out parse {Message = ℕ} stringify exchange local 3 (1 ∷ 2 ∷ []) refl refl refl
