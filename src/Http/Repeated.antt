-- ===== src/Http/Repeated.antt =====
-- What an asynchronous request of httpprovider.js in src/console/jsre/deps/web3.js tells its callback when
-- it runs out of time: its state changes to 4 without a text, and then its time is over.
use ultron.Prelude.{
  ℕ, ◌≡◌, refl, ◌∙◌, true, false, not, Option, none, some, List, [], ◌∷◌, ◌++◌, map, arith, ◌==◌,
}
use ultron.Text.{Text, all}
use ultron.Json.{Json, str}
use ultron.Rpc.{invalid_response, connection_timeout}
use ultron.Manager.{broken}
use ultron.Http.{
  HttpProvider, Request, Occurrence, ready_state, timed_out, occurs, occur_all, send_async,
  prepare_request,
}

-- Changes of the state without a text.
abbrev pub changes : List ℕ → List Occurrence
changes states = map (λ s. ready_state s []) states

module _ (parse : Text → Option Json) where
  -- States before the last one call nothing.
  occur_all-changes :
      (r : Request) (callback : ℕ) (states : List ℕ) (os : List Occurrence)
      → all (λ s. not (s == 4)) states ≡ true
      → occur_all parse r callback (changes states ++ os) ≡ occur_all parse r callback os
  unfolding occur_all occurs
  occur_all-changes r callback [] os h = refl
  occur_all-changes r callback (s ∷ states) os h =
      let earlier : (s == 4) ≡ false = ground (arith, h) in
      let rest : all (λ s. not (s == 4)) states ≡ true = ground (arith, h) in
      rw earlier (occur_all-changes r callback states os rest)

  -- A request that runs out of time calls its callback twice, with an error each time, unless the
  -- time limit is 1: the empty text is no JSON, and the end of the time is told besides.
  pub send_async-timed_out :
      {Message : Type 0} (stringify : Message → Text) (exchange : Request → Text → Option Text)
      (p : HttpProvider) (callback : ℕ) (states : List ℕ)
      → all (λ s. not (s == 4)) states ≡ true
      → (p.timeout == 1) ≡ false
      → parse [] ≡ none
      → send_async parse stringify exchange p true callback
          (changes states ++ ready_state 4 [] ∷ timed_out ∷ [])
        ≡ record { callback = callback; arrival = broken (invalid_response (some (str []))) }
          ∷ record { callback = callback; arrival = broken (connection_timeout p.timeout) }
          ∷ []
  unfolding send_async prepare_request occur_all occurs
  send_async-timed_out stringify exchange p callback states h limit empty =
      occur_all-changes (prepare_request p true) callback states (ready_state 4 [] ∷ timed_out ∷ [])
        h
      ∙ rw (limit, empty) refl
