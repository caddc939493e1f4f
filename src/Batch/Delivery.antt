-- ===== src/Batch/Delivery.antt =====
-- Every callback of a batch of batch.js in src/console/jsre/deps/web3.js is called once.
use ultron.Prelude.{
  ℕ, ◌≡◌, refl, ap, false, Option, none, some, List, [], ◌∷◌, Bool-cases, inl, inr,
}
use ultron.Text.{codes}
use ultron.Value.{Value}
use ultron.Method.Convert.{of_answer}
use ultron.Json.{Json, obj, end, member}
use ultron.Rpc.{Error, invalid_response, is_valid_message, is_valid_response}
use ultron.Manager.{failed}
use ultron.Method.{BatchRequest, Told, told, told_error}
use ultron.Batch.{
  Batch, Outcome, outcome, deliver, receive, then_called, or_object, first_result, later_results,
}

-- A callback in front, if there is one.
abbrev pub with_callback : Option ℕ → List ℕ → List ℕ
with_callback none fs = fs
with_callback (some f) fs = f ∷ fs

module _ {Big : Type 0} where
  -- The callbacks of the requests that have one, in order.
  abbrev pub callbacks : List (BatchRequest Big) → List ℕ
  callbacks [] = []
  callbacks (r ∷ rs) = with_callback r.payload.callback (callbacks rs)

  abbrev pub called_back : List (ℕ × Told Big) → List ℕ
  called_back [] = []
  called_back ((f, t) ∷ rest) = f ∷ called_back rest

  -- No formatter of the requests raises an exception.
  pub record IsCalm (r : BatchRequest Big) : Type 0 where
    pub formatted : (v : Value Big) → (w : Value Big) × (r.format v ≡ some w)

  pub data AllCalm : List (BatchRequest Big) → Type 0 where
    no_request : AllCalm []
    request :
        (r : BatchRequest Big) (rs : List (BatchRequest Big))
        → IsCalm r
        → AllCalm rs
        → AllCalm (r ∷ rs)

  outcome-some :
      (r : BatchRequest Big) (result : Json)
      → IsCalm r
      → (t : Told Big) × (outcome r result ≡ some t)
  unfolding outcome
  outcome-some r result calm = elim (Bool-cases (is_valid_response (some result))) [
    | inl valid ↦
        let (w, made) = calm.formatted (of_answer (member (codes "result") (some result))) in
        (told w, rw (valid, made) refl)
    | inr invalid ↦ (told_error (invalid_response (some result)), rw invalid refl)
  ]

  called-then_called :
      (c : Option ℕ) (t : Told Big) (rest : Outcome Big) (fs : List ℕ)
      → (called_back rest.called ≡ fs) × (rest.broken_off ≡ false)
      → (called_back (then_called c (some t) rest).called ≡ with_callback c fs)
        × ((then_called c (some t) rest).broken_off ≡ false)
  called-then_called none t rest fs h = h
  called-then_called (some f) t rest fs h = (ap (λ gs. f ∷ gs) h.0, h.1)

  -- Where no formatter raises an exception, every callback is called exactly once and in the order
  -- of the requests, and the delivery is not broken off, whatever the node answers.
  pub called_back-deliver :
      (rs : List (BatchRequest Big)) (results : List Json)
      → AllCalm rs
      → (called_back (deliver rs results).called ≡ callbacks rs)
        × ((deliver rs results).broken_off ≡ false)
  unfolding deliver
  called_back-deliver [] results calm = (refl, refl)
  called_back-deliver (r ∷ rs) results (request _ _ calm others) =
      let (t, made) = outcome-some r (or_object (first_result results)) calm in
      rw made (
        called-then_called r.payload.callback t (deliver rs (later_results results)) (callbacks rs)
          (called_back-deliver rs (later_results results) others))

  -- The error of an answer that is missing.
  abbrev pub missing : Told Big
  missing = told_error (invalid_response (some (obj end)))

  outcome-missing : (r : BatchRequest Big) → outcome r (obj end) ≡ some missing
  unfolding outcome is_valid_message
  outcome-missing r = refl

  -- All of them with one answer.
  abbrev pub all_told : Told Big → List ℕ → List (ℕ × Told Big)
  all_told t [] = []
  all_told t (f ∷ fs) = (f, t) ∷ all_told t fs

  told-then_called :
      (c : Option ℕ) (rest : Outcome Big) (fs : List ℕ)
      → (rest.called ≡ all_told missing fs) × (rest.broken_off ≡ false)
      → ((then_called c (some missing) rest).called ≡ all_told missing (with_callback c fs))
        × ((then_called c (some missing) rest).broken_off ≡ false)
  told-then_called none rest fs h = h
  told-then_called (some f) rest fs h = (ap (λ gs. (f, missing) ∷ gs) h.0, h.1)

  deliver-nothing :
      (rs : List (BatchRequest Big))
      → ((deliver rs []).called ≡ all_told missing (callbacks rs))
        × ((deliver rs []).broken_off ≡ false)
  unfolding deliver
  deliver-nothing [] = (refl, refl)
  deliver-nothing (r ∷ rs) =
      rw (outcome-missing r)
        (told-then_called r.payload.callback (deliver rs []) (callbacks rs) (deliver-nothing rs))

-- When a batch fails as a whole, every callback is called once, and each with the error for an
-- empty answer: the error of the connection or of the provider reaches none of them.
pub receive-failed :
    {Big : Type 0} (b : Batch Big) (e : Error)
    → ((receive b (failed e)).called ≡ all_told missing (callbacks b.requests))
      × ((receive b (failed e)).broken_off ≡ false)
unfolding receive
receive-failed b e = deliver-nothing b.requests
