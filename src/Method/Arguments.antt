-- ===== src/Method/Arguments.antt =====
-- What toPayload of method.js in src/console/jsre/deps/web3.js does with the arguments: a method
-- with formatters takes any number of them, one without takes only its own.
use ultron.Prelude.{
  ◌==◌, if◌then◌else◌, ℕ, suc, ◌≡◌, ◌≢◌, refl, ap, Option, none, some, List, [], ◌∷◌, ◌++◌, arith,
  length,
}
use ultron.Text.{Text}
use ultron.Rpc.{Error, invalid_number_of_params}
use ultron.Value.{Value, function}
use ultron.Method.{
  Method, Formatter, fixed, ready, refused, to_payload, extract_callback, cons_both, checked,
  get_call, last_callback, without_last, format_each, format_one, first_arg, other_args,
  format_input, validate_args,
}

module _ {Big : Type 0} where
  last_callback-append :
      (vs : List (Value Big)) (f : ℕ) → last_callback (vs ++ function f ∷ []) ≡ some f
  last_callback-append [] f = refl
  last_callback-append (v ∷ []) f = refl
  last_callback-append (v ∷ w ∷ vs) f = last_callback-append (w ∷ vs) f

  without_last-append : (vs : List (Value Big)) (v : Value Big) → without_last (vs ++ v ∷ []) ≡ vs
  without_last-append [] v = refl
  without_last-append (u ∷ []) v = refl
  without_last-append (u ∷ w ∷ vs) v = ap (λ ws. u ∷ ws) (without_last-append (w ∷ vs) v)

  extract_callback-append :
      (vs : List (Value Big)) (f : ℕ) → extract_callback (vs ++ function f ∷ []) ≡ (vs, some f)
  unfolding extract_callback
  extract_callback-append vs f =
      rw (last_callback-append vs f, extract_callback)
        (ap (λ ws. (ws, some f)) (without_last-append vs (function f)))

  length-cons_both :
      (fs : List (Option (Formatter Big))) (o : Option (Value Big)) (r : Option (List (Value Big)))
      (vs : List (Value Big))
      → ((ws : List (Value Big)) → r ≡ some ws → length ws ≡ length fs)
      → cons_both o r ≡ some vs
      → length vs ≡ suc (length fs)
  length-cons_both fs none r vs l h = cc
  length-cons_both fs (some v) none vs l h = cc
  length-cons_both fs (some v) (some ws) vs l h = ground (arith, l ws refl)

  -- There are as many results as formatters.
  length-format_each :
      (fs : List (Option (Formatter Big))) (args vs : List (Value Big))
      → format_each fs args ≡ some vs
      → length vs ≡ length fs
  unfolding format_each
  length-format_each [] args vs h = ground arith
  length-format_each (f ∷ fs) args vs h =
      length-cons_both fs (format_one f (first_arg args)) (format_each fs (other_args args)) vs
        (length-format_each fs (other_args args)) h

  checked-format_each :
      (t : Text) (cb : Option ℕ) (fs : List (Option (Formatter Big))) (args : List (Value Big))
      (o : Option (List (Value Big)))
      → ((vs : List (Value Big)) → o ≡ some vs → length vs ≡ length fs)
      → (e : Error) → checked t cb (length fs) o ≢ refused e
  unfolding validate_args
  checked-format_each t cb fs args none l e h = cc
  checked-format_each t cb fs args (some vs) l e h = ground (arith, l vs refl)

  -- A method with a formatter for each parameter takes any number of arguments: only the results of
  -- the formatters are counted.
  pub to_payload-ne-refused :
      (m : Method Big) (fs : List (Option (Formatter Big))) (args : List (Value Big))
      → (get_call m args).new_params ≡ none
      → m.input_formatter ≡ some fs
      → length fs ≡ m.params
      → (e : Error) → (to_payload m args).1 ≢ refused e
  unfolding to_payload format_input get_call
  to_payload-ne-refused m fs args c k l e h =
      let rest = extract_callback (get_call m args).args in
      checked-format_each (get_call m args).method rest.1 fs rest.0 (format_each fs rest.0)
        (length-format_each fs rest.0) e (rw (c, ← l, k) at h)

  -- A method without formatters takes exactly its number of arguments, besides a callback in the
  -- last place, and passes them on as they are.
  pub to_payload-plain :
      (m : Method Big) (t : Text) (args : List (Value Big)) (f : ℕ)
      → m.call ≡ fixed t
      → m.input_formatter ≡ none
      → (to_payload m (args ++ function f ∷ [])).1 ≡ (
          if length args == m.params
          then ready (record { method = t; params = args; callback = some f })
          else refused invalid_number_of_params)
  unfolding to_payload get_call format_input validate_args
  to_payload-plain m t args f c k = rw (c, k, extract_callback-append args f) (ground arith)
