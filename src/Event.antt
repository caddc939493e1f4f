-- ===== src/Event.antt =====
-- event.js of src/console/jsre/deps/web3.js: an event of a contract. Arguments to look for become the
-- topics of a filter, and a log is decoded to the arguments of the event. `none` is an exception.
-- The interface says of each param whether it is indexed.
pub mod Arguments
pub mod Execute
pub mod AllEvents
mod Tests
use ultron.Prelude.{
  ℕ, Bool, true, false, not, Option, none, some, List, [], ◌∷◌, ◌++◌, map, if◌then◌else◌, drop,
}
use mathlib.Core.Option
use ultron.Text.{Text, codes, text_eq}
use ultron.Json
use ultron.Utils.{transform_to_full_name, extract_display_name, extract_type_name}
use ultron.Value.{
  Value, Values, Fields, undefined, null, str, function, arr, obj, nil, cons, end, field, items,
  of_list, get, put, truthy, is_undefined, callback_of,
}
use ultron.Messages.{Runtime, Config, input_block_number, ◌>>=◌}
use ultron.Messages.Outputs.{output_log}
use ultron.Method.{first_arg, other_args}
use ultron.Coder.{Libraries}
use ultron.Coder.Encode.{encode_param}
use ultron.Coder.Decode.{decode_params}

pub record Input : Type 0 where
  pub name : Text
  pub type : Text
  pub indexed : Bool

pub record SolidityEvent (Big : Type 0) : Type 0 where
  pub params : List Input
  pub name : Text
  pub address : Value Big
  pub anonymous : Bool

-- What execute takes from its arguments.
pub record Given (Big : Type 0) : Type 0 where
  pub indexed : Value Big
  pub options : Value Big
  pub callback : Option ℕ

-- The inputs that are indexed, or those that are not.
abbrev pub inputs_of : Bool → List Input → List Input
inputs_of true [] = []
inputs_of true (i ∷ is) = if i.indexed then i ∷ inputs_of true is else inputs_of true is
inputs_of false [] = []
inputs_of false (i ∷ is) = if i.indexed then inputs_of false is else i ∷ inputs_of false is

abbrev pub type_list : List Input → List Text
type_list is = map (λ i. i.type) is

module _ {Big : Type 0} where
  unfoldable pub create : Text → List Input → Bool → Value Big → SolidityEvent Big
  unfolding transform_to_full_name
  create name inputs anonymous address = record {
    params = inputs;
    name = transform_to_full_name name (type_list inputs);
    address = address;
    anonymous = anonymous;
  }

  unfoldable pub types : SolidityEvent Big → Bool → List Text
  types e indexed = type_list (inputs_of indexed e.params)

  unfoldable pub display_name : SolidityEvent Big → Text
  unfolding extract_display_name
  display_name e = extract_display_name e.name

  unfoldable pub type_name : SolidityEvent Big → Text
  unfolding extract_type_name
  type_name e = extract_type_name e.name

  -- value[key]: only objects have properties that are looked for here.
  abbrev pub property : Text → Value Big → Value Big
  unfolding get
  property key (obj fs) = get key fs
  property key v = undefined

  -- delete object[key]
  unfoldable pub remove : Text → Fields Big → Fields Big
  unfolding text_eq
  remove key end = end
  remove key (field k v rest) =
      if text_eq k key then remove key rest else field k v (remove key rest)

  -- value || other
  abbrev pub or_else : Value Big → Value Big → Value Big
  unfolding truthy
  or_else v w = if truthy v then v else w

  -- topic.slice(2), joined; only texts are joined here.
  abbrev pub joined : List (Value Big) → Option Text
  joined [] = some []
  joined (str s ∷ ts) = joined ts >>= λ r. some (drop 2 s ++ r)
  joined (_ ∷ ts) = none

  abbrev pub topic_list : Value Big → Option (List (Value Big))
  topic_list (arr vs) = some (items vs)
  topic_list _ = none

  abbrev pub text_behind : Value Big → Option Text
  text_behind (str s) = some (drop 2 s)
  text_behind _ = none

  -- Each param takes the next of its values, undefined where there is none.
  unfoldable pub arguments :
      List Input → List (Value Big) → List (Value Big) → Fields Big → Fields Big
  unfolding put
  arguments [] indexed others acc = acc
  arguments (i ∷ is) indexed others acc =
      if i.indexed
      then arguments is (other_args indexed) others (put i.name (first_arg indexed) acc)
      else arguments is indexed (other_args others) (put i.name (first_arg others) acc)

  abbrev pub last_function : Value Big → List (Value Big) → Option ℕ
  last_function v [] = callback_of v
  last_function v (w ∷ ws) = last_function w ws

  abbrev pub last_or : Value Big → Option ℕ → Option ℕ
  last_or c none = callback_of c
  last_or c (some f) = some f

  -- A function in the last place is the callback; what stands before it is told by the number of the
  -- arguments.
  unfoldable pub given : List (Value Big) → Given Big
  given (function f ∷ []) = record { indexed = obj end; options = null; callback = some f }
  given (v ∷ function f ∷ []) = record { indexed = v; options = null; callback = some f }
  given [] = record { indexed = undefined; options = undefined; callback = none }
  given (v ∷ []) = record { indexed = v; options = undefined; callback = none }
  given (v ∷ w ∷ []) = record { indexed = v; options = w; callback = none }
  given (v ∷ w ∷ c ∷ rest) = record {
    indexed = v;
    options = w;
    callback = last_or c (last_function c rest);
  }

module _ (lib : Libraries) where
  open lib use {runtime}
  open lib.runtime use {sha3}
  open lib.runtime.big_number use {Big}

  unfoldable pub signature : SolidityEvent Big → Text
  signature e = sha3 e.name

  abbrev pub hex_param : Text → Value Big → Option (Value Big)
  unfolding encode_param
  hex_param type v = Option.map (λ s. str (codes "0x" ++ s)) (encode_param lib type v)

  abbrev pub hex_params : Text → Values Big → Option (Values Big)
  unfolding hex_param
  hex_params type nil = some nil
  hex_params type (cons v vs) = do t ← hex_param type v; ts ← hex_params type vs; some (cons t ts)

  -- The topic of an indexed param: null for any, a list for one of several.
  unfoldable pub topic_of : Text → Value Big → Option (Value Big)
  unfolding hex_params
  topic_of type undefined = some null
  topic_of type null = some null
  topic_of type (arr vs) = Option.map arr (hex_params type vs)
  topic_of type v = hex_param type v

  unfoldable pub indexed_topics : List Input → Value Big → Option (List (Value Big))
  unfolding topic_of property
  indexed_topics [] indexed = some []
  indexed_topics (i ∷ is) indexed = do
    t ← topic_of i.type (property i.name indexed)
    ts ← indexed_topics is indexed
    some (t ∷ ts)

  -- result[f], where options[f] is set.
  abbrev pub block_key : Text → Value Big → Fields Big → Fields Big
  unfolding property put input_block_number
  block_key key options fs =
      if is_undefined (property key options)
      then fs
      else put key (input_block_number runtime (property key options)) fs

  abbrev pub block_keys : Value Big → Fields Big
  unfolding block_key
  block_keys options =
      block_key (codes "toBlock") options (block_key (codes "fromBlock") options end)

  abbrev pub event_topic : SolidityEvent Big → List (Value Big)
  unfolding signature
  event_topic e = if e.anonymous then [] else str (codes "0x" ++ signature e) ∷ []

  -- The options of the filter.
  unfoldable pub encode : SolidityEvent Big → Value Big → Value Big → Option (Value Big)
  unfolding indexed_topics block_keys event_topic or_else put
  encode e indexed options = do
    ts ← indexed_topics (inputs_of true e.params) (or_else indexed (obj end))
    some (
        obj (
          put (codes "address") e.address (
            put (codes "topics") (arr (of_list (event_topic e ++ ts)))
              (block_keys (or_else options (obj end))))))

  abbrev pub arg_topics : SolidityEvent Big → List (Value Big) → List (Value Big)
  arg_topics e ts = if e.anonymous then ts else drop 1 ts

  -- data.data and data.topics are set where they are missing.
  abbrev pub completed : Fields Big → Fields Big
  unfolding get put or_else
  completed fs =
      let with_data = put (codes "data") (or_else (get (codes "data") fs) (str [])) fs in
      put (codes "topics") (or_else (get (codes "topics") with_data) (arr nil)) with_data

  -- result.args
  unfoldable pub decode_args : SolidityEvent Big → Fields Big → Option (Fields Big)
  unfolding types arguments get
  decode_args e fs = do
    ts ← topic_list (get (codes "topics") fs)
    indexed_data ← joined (arg_topics e ts)
    indexed ← decode_params lib (types e true) indexed_data
    others_data ← text_behind (get (codes "data") fs)
    others ← decode_params lib (types e false) others_data
    some (arguments e.params indexed others end)

  -- The log that outputLogFormatter gives is the given object, so its address is still there.
  abbrev pub finish : SolidityEvent Big → Fields Big → Value Big → Option (Value Big)
  unfolding display_name remove put get
  finish e args (obj fs) = some (
      obj (
        remove (codes "topics") (
          remove (codes "data") (
            put (codes "args") (obj args) (
              put (codes "address") (get (codes "address") fs)
                (put (codes "event") (str (display_name e)) fs))))))
  finish e args v = none

  unfoldable pub decode : SolidityEvent Big → Value Big → Option (Value Big)
  unfolding completed decode_args output_log finish
  decode e (obj fs) = do
    args ← decode_args e (completed fs)
    log ← output_log runtime (obj (completed fs))
    finish e args log
  decode e v = none
