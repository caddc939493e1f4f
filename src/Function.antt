-- ===== src/Function.antt =====
-- function.js of src/console/jsre/deps/web3.js: a function of a contract. Its arguments become the
-- data of a call or of a transaction, and the answer of a call is decoded. `none` is an exception;
-- constant and payable of the description are given by their truth.
pub mod Payable
pub mod Calls
pub mod Data
pub mod Answer
pub mod Remote
pub mod Sending
pub mod Attached
mod Tests
use ultron.Prelude.{
  ℕ, ◌≤◌, Bool, true, false, not, ◌&&◌, Option, none, some, List, [], ◌∷◌, ◌++◌, if◌then◌else◌, ltb,
  length, take, drop, ◌==◌, leb,
}
use mathlib.Core.Option
use ultron.Prelude.Int.{pos}
use ultron.Text.{Text, codes, text_eq}
use ultron.Utils.{transform_to_full_name, extract_display_name, extract_type_name}
use ultron.Value.{
  Value, undefined, null, bool, num, str, big, function, arr, obj, Fields, end, of_list, put, get,
  truthy, is_undefined,
}
use ultron.Manager.{Manager}
use ultron.Messages.{Runtime, Config, input_default_block_number}
use ultron.Method
use ultron.Method.{
  Invoked, answered, crashed, raised, left, invoke, Told, told_error, told, extract_callback,
  without_last,
}
use ultron.Methods.Actions
use ultron.Coder.{Libraries}
use ultron.Coder.Encode.{encode_params}
use ultron.Coder.Decode.{decode_params}
use ultron.Function.Payable.{is_positive}

-- What the interface of the contract says of a function.
pub record Description : Type 0 where
  pub name : Text
  pub inputs : List Text
  pub outputs : List Text
  pub constant : Bool
  pub payable : Bool

pub record SolidityFunction (Big : Type 0) : Type 0 where
  pub input_types : List Text
  pub output_types : List Text
  pub constant : Bool
  pub payable : Bool
  pub name : Text
  pub address : Value Big

-- The options that are sent, and the field data of them. What is put on an array or a big number
-- in the place of the options is lost when the request is written.
pub record Payload (Big : Type 0) : Type 0 where
  pub options : Value Big
  pub data_ : Text

-- What a transaction comes to.
pub data Outcome (Big : Type 0) : Type 0 where
  -- 'Cannot send value to non-payable function'
  not_payable : Outcome Big
  invoked : Invoked Big → Outcome Big

-- What the callback of a call gets: an error, the output, or the exception of its decoding.
pub data Output (Big : Type 0) : Type 0 where
  failed : Told Big → Output Big
  unpacked : Value Big → Output Big
  undecoded : Output Big

pub record Request (Big : Type 0) : Type 0 where
  pub method : Text
  pub callback : Option ℕ
  pub params : List (Value Big)

abbrev pub callback_args : {Big : Type 0} → Option ℕ → List (Value Big)
callback_args none = []
callback_args (some f) = function f ∷ []

-- output.length >= 2 ? output.slice(2) : output
abbrev pub without_prefix : Text → Text
without_prefix s = if leb 2 (length s) then drop 2 s else s

module _ {Big : Type 0} where
  unfoldable pub create : Description → Value Big → SolidityFunction Big
  unfolding transform_to_full_name
  create json address = record {
    input_types = json.inputs;
    output_types = json.outputs;
    constant = json.constant;
    payable = json.payable;
    name = transform_to_full_name json.name json.inputs;
    address = address;
  }

  -- utils.isObject: typeof null is 'object' too, and big numbers are objects.
  abbrev pub is_object : Value Big → Bool
  is_object null = true
  is_object (big x) = true
  is_object (arr vs) = true
  is_object (obj fs) = true
  is_object _ = false

  abbrev pub last_arg : List (Value Big) → Value Big
  last_arg [] = undefined
  last_arg (v ∷ []) = v
  last_arg (v ∷ w ∷ vs) = last_arg (w ∷ vs)

  -- args.length > this._inputTypes.length
  abbrev pub has_more : SolidityFunction Big → List (Value Big) → Bool
  has_more f args = ltb (length f.input_types) (length args)

  -- options.to = ..., options.data = ...
  abbrev pub put_both : Value Big → Text → Value Big → Option (Payload Big)
  unfolding put
  put_both to data_ null = none
  put_both to data_ (obj fs) = some (record {
    options = obj (put (codes "data") (str data_) (put (codes "to") to fs));
    data_ = data_;
  })
  put_both to data_ v = some (record { options = v; data_ = data_ })

  -- The filter of undefined arguments.
  abbrev pub defined : List (Value Big) → List (Value Big)
  defined [] = []
  defined (v ∷ vs) = if is_undefined v then defined vs else v ∷ defined vs

  -- result.length === 1 ? result[0] : result
  abbrev pub one_or_all : List (Value Big) → Value Big
  one_or_all (v ∷ []) = v
  one_or_all vs = arr (of_list vs)

  unfoldable pub display_name : SolidityFunction Big → Text
  unfolding extract_display_name
  display_name f = extract_display_name f.name

  unfoldable pub type_name : SolidityFunction Big → Text
  unfolding extract_type_name
  type_name f = extract_type_name f.name

module _ (lib : Libraries) where
  open lib use {runtime}
  open lib.runtime use {big_number, sha3}
  open lib.runtime.big_number use {Big, to_text}

  unfoldable pub signature : SolidityFunction Big → Text
  signature f = take 8 (sha3 f.name)

  abbrev pub options_of : SolidityFunction Big → List (Value Big) → Value Big
  options_of f args =
      if has_more f args && is_object (last_arg args) then last_arg args else obj end

  abbrev pub with_data : SolidityFunction Big → Value Big → Option Text → Option (Payload Big)
  unfolding signature
  with_data f options none = none
  with_data f options (some encoded) =
      put_both f.address (codes "0x" ++ (signature f ++ encoded)) options

  unfoldable pub to_payload : SolidityFunction Big → List (Value Big) → Option (Payload Big)
  unfolding encode_params
  to_payload f args = with_data f (options_of f args) (encode_params lib f.input_types args)

  -- The output of the node is a text; on anything else only no outputs at all can be decoded.
  unfoldable pub unpack_output : SolidityFunction Big → Value Big → Option (Value Big)
  unfolding truthy decode_params
  unpack_output f (str s) =
      if truthy {Big = Big} (str s)
      then Option.map one_or_all (decode_params lib f.output_types (without_prefix s))
      else some undefined
  unpack_output f v =
      if truthy v
      then elim f.output_types [ [] ↦ some (arr (of_list [])) | t ∷ ts ↦ none ]
      else some undefined

  abbrev unpacked_or_crashed : Option (Value Big) → Invoked Big
  unpacked_or_crashed none = crashed
  unpacked_or_crashed (some v) = answered v

  -- Without a callback the answer is decoded at once.
  abbrev pub unpack_answer : SolidityFunction Big → Option ℕ → Invoked Big → Invoked Big
  unfolding unpack_output
  unpack_answer f none (answered v) = unpacked_or_crashed (unpack_output f v)
  unpack_answer f callback i = i

  -- What the callback of the page gets when the reply to a call is there.
  unfoldable pub called_back : SolidityFunction Big → Told Big → Output Big
  unfolding unpack_output
  called_back f (told_error e) = failed (told_error e)
  called_back f (told v) = elim (unpack_output f v) [ none ↦ undecoded | some w ↦ unpacked w ]

  -- payload.value > 0; `value` of an array or a big number is undefined.
  abbrev pub has_value : Value Big → Bool
  unfolding get
  has_value (obj fs) = is_positive big_number (get (codes "value") fs)
  has_value v = false

  unfoldable pub get_data : SolidityFunction Big → List (Value Big) → Option Text
  unfolding to_payload
  get_data f args = Option.map (λ p. p.data_) (to_payload f args)

  -- A request of a batch, whose answer is decoded by unpackOutput.
  unfoldable pub request : SolidityFunction Big → List (Value Big) → Option (Request Big)
  unfolding extract_callback to_payload
  request f args =
      let (given, callback) = extract_callback args in
      Option.map
        (λ p. record {
          method = if f.constant then codes "eth_call" else codes "eth_sendTransaction";
          callback = callback;
          params = p.options ∷ [];
        })
        (to_payload f given)
