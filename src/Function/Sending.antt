-- ===== src/Function/Sending.antt =====
-- sendTransaction of function.js in src/console/jsre/deps/web3.js with options behind the arguments.
use ultron.Prelude.{
  ℕ, Option, append_assoc, ◌<◌, ◌≡◌, refl, sym, ap, ◌∙◌, true, false, none, some, List, [], ◌∷◌,
  ◌++◌, arith, length, map, length-append,
}
use ultron.Text.{Text, codes, text_eq}
use ultron.BigNumber.{IsExact}
use ultron.Manager.{Manager}
use ultron.Value.{Value, function, callback_of, Fields, str, obj, put}
use ultron.Value.Objects.{get-put_other}
use ultron.Messages.{Config}
use ultron.Method.{extract_callback, last_callback, without_last}
use ultron.Formatters.Numbers.{word_mod}
use ultron.Coder.{Libraries}
use ultron.Coder.Encode.{encode_params, entries}
use ultron.Coder.Params.{Param, type_of, param_of, total}
use ultron.Coder.RoundTrip.{decode_params-encode_params}
use ultron.Function.{
  callback_args, SolidityFunction, not_payable, to_payload, with_data, put_both, has_more,
  has_value, last_arg, defined,
}
use ultron.Function.Calls.{send_with, send_transaction}
use ultron.Function.Payable.{is_positive}
use ultron.Function.Data.{length-map, data_of}
use ultron.Function.Answer.{defined-params}

module _ (Big : Type 0) where
  last_arg-append : (vs : List (Value Big)) (v : Value Big) → last_arg (vs ++ v ∷ []) ≡ v
  last_arg-append [] v = refl
  last_arg-append (u ∷ []) v = refl
  last_arg-append (u ∷ w ∷ vs) v = last_arg-append (w ∷ vs) v

  last_callback-append :
      (vs : List (Value Big)) (v : Value Big) → last_callback (vs ++ v ∷ []) ≡ callback_of v
  last_callback-append [] v = refl
  last_callback-append (u ∷ []) v = refl
  last_callback-append (u ∷ w ∷ vs) v = last_callback-append (w ∷ vs) v

  without_last-append : (vs : List (Value Big)) (v : Value Big) → without_last (vs ++ v ∷ []) ≡ vs
  without_last-append [] v = refl
  without_last-append (u ∷ []) v = refl
  without_last-append (u ∷ w ∷ vs) v = ap (λ ws. u ∷ ws) (without_last-append (w ∷ vs) v)

  defined-append : (vs ws : List (Value Big)) → defined (vs ++ ws) ≡ defined vs ++ defined ws
  defined-append [] ws = refl
  defined-append (u ∷ vs) ws = ground (arith, defined-append vs ws)

module _ (lib : Libraries) where
  open lib.runtime.big_number use {Big}

  -- Arguments behind the last type are not encoded.
  entries-append :
      (ts : List Text) (vs ws : List (Value Big))
      → length vs ≡ length ts
      → entries lib ts (vs ++ ws) ≡ entries lib ts vs
  unfolding entries
  entries-append [] vs ws h = refl
  entries-append (t ∷ ts) [] ws h = absurd (omega (arith, h))
  entries-append (t ∷ ts) (v ∷ vs) ws h = rw (entries-append ts vs ws (omega (arith, h))) refl

  encode_params-append :
      (ts : List Text) (vs ws : List (Value Big))
      → length vs ≡ length ts
      → encode_params lib ts (vs ++ ws) ≡ encode_params lib ts vs
  unfolding encode_params
  encode_params-append ts vs ws h = rw (entries-append ts vs ws h) refl

  -- The payload of arguments with options behind them.
  to_payload-options :
      (f : SolidityFunction Big) (vs : List (Value Big)) (fs : Fields Big) (encoded : Text)
      → length vs ≡ length f.input_types
      → encode_params lib f.input_types vs ≡ some encoded
      → to_payload lib f (vs ++ obj fs ∷ [])
        ≡ some (record {
          options =
              obj
                (put (codes "data") (str (data_of lib f encoded)) (put (codes "to") f.address fs));
          data_ = data_of lib f encoded;
        })
  unfolding to_payload with_data put_both
  to_payload-options f vs fs encoded h made =
      let more : has_more f (vs ++ obj fs ∷ []) ≡ true =
        ground (arith, length-append vs (obj fs ∷ []), h) in
      rw
        (
          more,
          last_arg-append Big vs (obj fs),
          encode_params-append f.input_types vs (obj fs ∷ []) h,
          made,
        )
        refl

  has_value-put :
      (d to : Value Big) (fs : Fields Big)
      → has_value lib (obj (put (codes "data") d (put (codes "to") to fs))) ≡ has_value lib (obj fs)
  unfolding has_value text_eq
  has_value-put d to fs = ap (is_positive lib.runtime.big_number) (
      get-put_other (codes "value") (codes "data") d (put (codes "to") to fs) refl
      ∙ get-put_other (codes "value") (codes "to") to fs refl)

  -- The arguments of a call with options, and with a callback or not.
  abbrev pub with_options : List (Value Big) → Fields Big → Option ℕ → List (Value Big)
  with_options vs fs callback = vs ++ (obj fs ∷ callback_args callback)

  defined-options :
      (ps : List Param) (fs : Fields Big) (callback : Option ℕ)
      → defined (with_options (map param_of ps) fs callback)
        ≡ with_options (map param_of ps) fs callback
  defined-options ps fs none =
      defined-append Big (map param_of ps) (obj fs ∷ []) ∙ rw (defined-params Big ps) refl
  defined-options ps fs (some g) =
      defined-append Big (map param_of ps) (obj fs ∷ function g ∷ [])
      ∙ rw (defined-params Big ps) refl

  extract_callback-options :
      (vs : List (Value Big)) (fs : Fields Big) (callback : Option ℕ)
      → extract_callback (with_options vs fs callback) ≡ (vs ++ obj fs ∷ [], callback)
  unfolding extract_callback
  extract_callback-options vs fs none =
      rw (extract_callback, last_callback-append Big vs (obj fs)) refl
  extract_callback-options vs fs (some g) =
      ap extract_callback (sym (append_assoc vs (obj fs ∷ []) (function g ∷ [])))
      ∙ rw
          (
            extract_callback,
            last_callback-append Big (vs ++ obj fs ∷ []) (function g),
            without_last-append Big (vs ++ obj fs ∷ []) (function g),
          )
          refl

  module _ (config : Config Big) (exact : IsExact lib.runtime.big_number) where
    -- A transaction with a value for a function that is not payable is an error, and nothing is
    -- sent: the request manager stays as it is, with a callback and without, and whatever else the
    -- options hold. The arguments are params of the function's types, within the bounds of Param,
    -- and bignumber.js is exact on integers.
    pub send_transaction-not_payable :
        (rm : Manager) (f : SolidityFunction Big) (ps : List Param) (fs : Fields Big)
        (callback : Option ℕ)
        → f.input_types ≡ map type_of ps
        → total ps < word_mod
        → f.payable ≡ false
        → has_value lib (obj fs) ≡ true
        → send_transaction lib config rm f (with_options (map param_of ps) fs callback)
          ≡ (rm, not_payable)
    unfolding send_transaction send_with
    send_transaction-not_payable rm f ps fs callback types fits closed valued =
        let (encoded, made, _) = decode_params-encode_params lib exact ps fits in
        let count : length (map (param_of {Big = Big}) ps) ≡ length f.input_types =
          length-map param_of ps ∙ sym (ap length types ∙ length-map type_of ps) in
        ap (λ t. send_with lib config rm f t.1 (to_payload lib f t.0))
          (ap extract_callback (defined-options ps fs callback)
            ∙ extract_callback-options (map param_of ps) fs callback)
        ∙ ap (send_with lib config rm f callback)
            (to_payload-options f (map param_of ps) fs encoded count (rw types made))
        ∙ rw (has_value-put (str (data_of lib f encoded)) f.address fs, valued, closed) refl
