-- ===== src/Method.antt =====
-- method.js of src/console/jsre/deps/web3.js: a method of the node as a function of the page. Its
-- arguments are checked and formatted, the last may be a callback, and its answer is formatted.
pub mod Convert
pub mod Arguments
use ultron.Prelude.{
  ℕ, Bool, true, false, not, Option, none, some, List, [], ◌∷◌, ◌++◌, map, if◌then◌else◌, ◌==◌,
  length,
}
use mathlib.Core.Option
use ultron.Text.{Text, codes}
use ultron.Json.{Json}
use ultron.Rpc.{Error, Payload, Request, invalid_number_of_params}
use ultron.Manager
use ultron.Manager.{Manager, Event, Reply, Sent, returned, thrown, failed, done}
use ultron.Value.{Value, undefined, truthy, callback_of}
use ultron.Method.Convert.{of_answer, to_params}

-- A formatter takes a value to a value; `none` is an exception.
abbrev pub Formatter : Type 0 → Type 0
Formatter Big = Value Big → Option (Value Big)

-- What a computed call answers: the node's method, the arguments that are left, and the number of
-- parameters if it sets that.
pub record Choice (Big : Type 0) : Type 0 where
  pub method : Text
  pub args : List (Value Big)
  pub new_params : Option ℕ

-- The name of the node's method, or a function of the arguments.
pub data Call (Big : Type 0) : Type 0 where
  fixed : Text → Call Big
  computed : (List (Value Big) → Choice Big) → Call Big

pub record Method (Big : Type 0) : Type 0 where
  pub name : Text
  pub call : Call Big
  pub params : ℕ
  -- null is the formatter `none`.
  pub input_formatter : Option (List (Option (Formatter Big)))
  pub output_formatter : Option (Formatter Big)

pub data Attempt {ℓ} (A : Type ℓ) : Type ℓ where
  ready : A → Attempt A
  refused : Error → Attempt A
  -- An exception of a formatter.
  broke : Attempt A

pub record Prepared (Big : Type 0) : Type 0 where
  pub method : Text
  pub params : List (Value Big)
  pub callback : Option ℕ

-- The number of parameters may have been set by the call.
abbrev pub new_or : Option ℕ → ℕ → ℕ
new_or none n = n
new_or (some k) n = k

-- A request of a batch: its answer will be formatted by the method.
pub record BatchRequest (Big : Type 0) : Type 0 where
  pub payload : Prepared Big
  pub format : Value Big → Option (Value Big)

-- What a callback of the page gets.
pub data Told (Big : Type 0) : Type 0 where
  told_error : Error → Told Big
  told : Value Big → Told Big

-- What a call of the function gives: an answer, an error, an exception of a formatter, or the
-- payload and the events of a request that is under way.
pub data Invoked (Big : Type 0) : Type 0 where
  answered : Value Big → Invoked Big
  raised : Error → Invoked Big
  crashed : Invoked Big
  left : Option Payload → List Event → Invoked Big

module _ {Big : Type 0} where
  -- this.call is a function or not.
  abbrev pub choose : Call Big → List (Value Big) → Choice Big
  choose (fixed t) args = record { method = t; args = args; new_params = none }
  choose (computed f) args = f args

  unfoldable pub get_call : Method Big → List (Value Big) → Choice Big
  get_call m args = choose m.call args

  abbrev pub last_callback : List (Value Big) → Option ℕ
  last_callback [] = none
  last_callback (v ∷ []) = callback_of v
  last_callback (v ∷ w ∷ vs) = last_callback (w ∷ vs)

  abbrev pub without_last : List (Value Big) → List (Value Big)
  without_last [] = []
  without_last (v ∷ []) = []
  without_last (v ∷ w ∷ vs) = v ∷ without_last (w ∷ vs)

  -- A function in the last place is taken off.
  unfoldable pub extract_callback : List (Value Big) → List (Value Big) × Option ℕ
  extract_callback args = elim (last_callback args) [
    | none ↦ (args, none)
    | some f ↦ (without_last args, some f)
  ]

  abbrev pub first_arg : List (Value Big) → Value Big
  first_arg [] = undefined
  first_arg (v ∷ vs) = v

  abbrev pub other_args : List (Value Big) → List (Value Big)
  other_args [] = []
  other_args (v ∷ vs) = vs

  -- formatter ? formatter(arg) : arg
  abbrev pub format_one : Option (Formatter Big) → Value Big → Option (Value Big)
  format_one none v = some v
  format_one (some f) v = f v

  -- The first exception ends the loop.
  abbrev pub cons_both : Option (Value Big) → Option (List (Value Big)) → Option (List (Value Big))
  cons_both none rest = none
  cons_both (some v) none = none
  cons_both (some v) (some vs) = some (v ∷ vs)

  -- One result for each formatter, whatever the number of arguments.
  unfoldable pub format_each :
      List (Option (Formatter Big)) → List (Value Big) → Option (List (Value Big))
  format_each [] args = some []
  format_each (f ∷ fs) args =
      cons_both (format_one f (first_arg args)) (format_each fs (other_args args))

  -- With no list of formatters the arguments stay.
  unfoldable pub format_input :
      Option (List (Option (Formatter Big))) → List (Value Big) → Option (List (Value Big))
  unfolding format_each
  format_input none args = some args
  format_input (some fs) args = format_each fs args

  -- Only the formatted arguments are counted.
  unfoldable pub validate_args : ℕ → List (Value Big) → Attempt (List (Value Big))
  validate_args params args =
      if length args == params then ready args else refused invalid_number_of_params

  abbrev pub prepared : Text → Option ℕ → Attempt (List (Value Big)) → Attempt (Prepared Big)
  prepared method callback (ready params) =
      ready (record { method = method; params = params; callback = callback })
  prepared method callback (refused e) = refused e
  prepared method callback broke = broke

  abbrev pub checked : Text → Option ℕ → ℕ → Option (List (Value Big)) → Attempt (Prepared Big)
  checked method callback params none = broke
  checked method callback params (some args) = prepared method callback (validate_args params args)

  -- The method, whose number of parameters may have changed, and the payload.
  unfoldable pub to_payload : Method Big → List (Value Big) → Method Big × Attempt (Prepared Big)
  to_payload m args =
      let choice = get_call m args in
      let m' = record m { params = new_or choice.new_params m.params } in
      let extracted = extract_callback choice.args in
      (
        m',
        checked choice.method extracted.1 m'.params (format_input m'.input_formatter extracted.0),
      )

  -- outputFormatter && result ? outputFormatter(result) : result
  unfoldable pub format_output : Method Big → Value Big → Option (Value Big)
  unfolding truthy
  format_output m result = elim m.output_formatter [
    | none ↦ some result
    | some f ↦ if truthy result then f result else some result
  ]

  unfoldable pub request : Method Big → List (Value Big) → Method Big × Attempt (BatchRequest Big)
  unfolding to_payload format_output
  request m args =
      let (m', payload) = to_payload m args in
      (
        m',
        elim payload [
          | ready p ↦ ready (record { payload = p; format = format_output m' })
          | refused e ↦ refused e
          | broke ↦ broke
        ],
      )

  abbrev answered_by : Option (Value Big) → Invoked Big
  answered_by none = crashed
  answered_by (some v) = answered v

  -- What the callback of the page gets from the reply to the request.
  unfoldable pub callback_result : Method Big → Reply → Option (Told Big)
  unfolding format_output of_answer
  callback_result m (failed e) = some (told_error e)
  callback_result m (done result) = Option.map told (format_output m (of_answer result))

  module _ (to_text : Big → Text) where
    -- What the request manager is given.
    abbrev pub request_of : Prepared Big → Request
    request_of p = record { method = p.method; params = some (to_params to_text p.params) }

    -- With a callback the request is sent and its events come later, without one the answer is
    -- awaited.
    unfoldable pub transmit :
        Manager → Method Big → Prepared Big → Option ℕ → Manager × Method Big × Invoked Big
    unfolding format_output of_answer to_params
    transmit rm m p (some f) =
        let (rm', sent, events) = Manager.send_async rm (request_of p) f in
        (rm', m, left sent events)
    transmit rm m p none =
        let (rm', sent) = Manager.send rm (request_of p) in
        (
          rm',
          m,
          elim sent [
            | returned result ↦ answered_by (format_output m (of_answer result))
            | thrown e ↦ raised e
          ],
        )

    unfoldable pub dispatch :
        Manager → Method Big → Attempt (Prepared Big) → Manager × Method Big × Invoked Big
    dispatch rm m (ready p) = transmit rm m p p.callback
    dispatch rm m (refused e) = (rm, m, raised e)
    dispatch rm m broke = (rm, m, crashed)

    -- The function that the page calls.
    unfoldable pub invoke :
        Manager → Method Big → List (Value Big) → Manager × Method Big × Invoked Big
    unfolding to_payload dispatch
    invoke rm m args = let (m', payload) = to_payload m args in dispatch rm m' payload
