-- ===== src/Function/Answer.antt =====
-- A call of a function of function.js in src/console/jsre/deps/web3.js, from its arguments over the
-- coder, the method eth_call, the request manager and the node to the value that the page gets.
use ultron.Prelude.{◌≡◌, refl, ap, ◌∙◌, true, false, none, some, List, [], ◌∷◌, ◌++◌, arith, map}
use mathlib.Core.Option
use ultron.Text.{Text, codes, text_eq}
use ultron.Json.{Json, member}
use ultron.Rpc
use ultron.Rpc.{is_valid_response}
use ultron.Manager
use ultron.Manager.{Manager, Provider, answer, returned}
use ultron.Value.{Value, undefined, str, obj, end, field, put, get, truthy}
use ultron.Messages.{
  Config, input_call, input_address, decimal_keys, sender, address_key, input_default_block_number,
}
use ultron.Method
use ultron.Method.{Invoked, Prepared, answered, ready, invoke, last_callback, extract_callback}
use ultron.Method.Convert.{of_answer, of_json}
use ultron.Methods.Actions
use ultron.Coder.{Libraries}
use ultron.Coder.Decode.{decode_params}
use ultron.Coder.Params.{Param, int, uint, bool, bytes, ints, uints, param_of}
use ultron.Function.{SolidityFunction, unpack_output, one_or_all, without_prefix, defined}

without_prefix-0x : (s : Text) → without_prefix (codes "0x" ++ s) ≡ s
without_prefix-0x s = ground arith

module _ (Big : Type 0) where
  -- No param is undefined or a function.
  pub defined-params : (ps : List Param) → defined {Big = Big} (map param_of ps) ≡ map param_of ps
  defined-params [] = refl
  defined-params (int z ∷ ps) = rw (defined-params ps) refl
  defined-params (uint n ∷ ps) = rw (defined-params ps) refl
  defined-params (bool b ∷ ps) = rw (defined-params ps) refl
  defined-params (bytes h n size small ∷ ps) = rw (defined-params ps) refl
  defined-params (ints zs few ∷ ps) = rw (defined-params ps) refl
  defined-params (uints d ns digits there count some_items required ∷ ps) =
      rw (defined-params ps) refl

  last_callback-params : (ps : List Param) → last_callback (map (param_of {Big = Big}) ps) ≡ none
  last_callback-params [] = refl
  last_callback-params (int z ∷ []) = refl
  last_callback-params (uint n ∷ []) = refl
  last_callback-params (bool b ∷ []) = refl
  last_callback-params (bytes h n size small ∷ []) = refl
  last_callback-params (ints zs few ∷ []) = refl
  last_callback-params (uints d ns digits there count some_items required ∷ []) = refl
  last_callback-params (p ∷ q ∷ ps) = last_callback-params (q ∷ ps)

  pub extract_callback-params :
      (ps : List Param) → extract_callback {Big = Big} (map param_of ps) ≡ (map param_of ps, none)
  unfolding extract_callback
  extract_callback-params ps = rw (extract_callback, last_callback-params ps) refl

send-valid :
    (rm : Manager) (p : Provider) (q : Rpc.Request) (r : Json)
    → rm.provider ≡ some p
    → is_valid_response (p.send (Rpc.to_payload rm.message_id q).0) ≡ true
    → member (codes "result") (p.send (Rpc.to_payload rm.message_id q).0) ≡ some r
    → (Manager.send rm q).1 ≡ returned (some r)
unfolding Manager.send
send-valid rm p q r provided valid got = ground (arith, provided, valid, got)

module _ (lib : Libraries) where
  open lib use {runtime}
  open lib.runtime.big_number use {Big, to_text}

  -- The output of a function is decoded from the text behind 0x; a single value stands alone.
  pub unpack_output-encoded :
      (f : SolidityFunction Big) (encoded : Text) (vs : List (Value Big))
      → decode_params lib f.output_types encoded ≡ some vs
      → unpack_output lib f (str (codes "0x" ++ encoded)) ≡ some (one_or_all vs)
  unfolding unpack_output truthy
  unpack_output-encoded f encoded vs h =
      ap (λ s. Option.map one_or_all (decode_params lib f.output_types s))
        (without_prefix-0x encoded)
      ∙ rw h refl

  module _ (config : Config Big) (quiet : truthy config.default_account ≡ false) where
    -- The options of a call with the formatted address.
    abbrev pub formatted : Text → Text → Value Big
    formatted to data_ = obj (
        field (codes "to") (str to)
          (field (codes "data") (str data_) (field (codes "from") config.default_account end)))

    input_call-plain :
        (a b d : Text)
        → truthy {Big = Big} (str a) ≡ true
        → input_address runtime (str a) ≡ some (str b)
        → input_call runtime config
            (obj (field (codes "to") (str a) (field (codes "data") (str d) end)))
          ≡ some (formatted b d)
    unfolding input_call decimal_keys sender address_key get put text_eq
    input_call-plain a b d there h = rw (quiet, there, h) refl

    -- The node's method is asked with the options and the settings' block.
    abbrev pub call_prepared : Text → Text → Prepared Big
    call_prepared to data_ = record {
      method = codes "eth_call";
      params = formatted to data_ ∷ config.default_block ∷ [];
      callback = none;
    }

    to_payload-call :
        (a b d : Text)
        → truthy {Big = Big} (str a) ≡ true
        → input_address runtime (str a) ≡ some (str b)
        → Method.to_payload
            (Actions.call runtime config)
            (obj (field (codes "to") (str a) (field (codes "data") (str d) end)) ∷ undefined ∷ [])
          ≡ (Actions.call runtime config, ready (call_prepared b d))
    unfolding Method.to_payload Method.get_call extract_callback Method.format_input
        Method.format_each Method.validate_args input_default_block_number
    to_payload-call a b d there h = rw (input_call-plain a b d there h) refl

    -- What the provider is sent.
    abbrev pub call_payload : Manager → Text → Text → Rpc.Payload
    call_payload rm to data_ =
        (Rpc.to_payload rm.message_id (Method.request_of (to_text 10) (call_prepared to data_))).0

    transmit-call :
        (rm : Manager) (p : Provider) (b d : Text) (r : Json)
        → rm.provider ≡ some p
        → is_valid_response (p.send (call_payload rm b d)) ≡ true
        → member (codes "result") (p.send (call_payload rm b d)) ≡ some r
        → (Method.transmit (to_text 10) rm (Actions.call runtime config) (call_prepared b d) none).2
          ≡ answered (of_json r)
    unfolding Method.transmit Method.format_output of_answer
    transmit-call rm p b d r provided valid got =
        rw
          (
            Method.transmit,
            send-valid rm p (Method.request_of (to_text 10) (call_prepared b d)) r provided valid
                got,
          )
          refl

    -- The node's method, with the options and the settings' block.
    pub invoke-call :
        (rm : Manager) (p : Provider) (a b d : Text) (r : Json)
        → rm.provider ≡ some p
        → truthy {Big = Big} (str a) ≡ true
        → input_address runtime (str a) ≡ some (str b)
        → is_valid_response (p.send (call_payload rm b d)) ≡ true
        → member (codes "result") (p.send (call_payload rm b d)) ≡ some r
        → (invoke (to_text 10) rm (Actions.call runtime config) (
            obj (field (codes "to") (str a) (field (codes "data") (str d) end)) ∷ undefined ∷ [])).2
          ≡ answered (of_json r)
    unfolding invoke Method.dispatch
    invoke-call rm p a b d r provided there h valid got =
        ap (λ t. (Method.dispatch (to_text 10) rm t.0 t.1).2) (to_payload-call a b d there h)
        ∙ (transmit-call rm p b d r provided valid got)
