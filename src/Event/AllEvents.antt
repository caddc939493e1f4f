-- ===== src/Event/AllEvents.antt =====
-- allevents.js of src/console/jsre/deps/web3.js: the filter on all events of a contract. A log is decoded
-- by the event whose hash is its first topic. What is printed to the console is left out.
use ultron.Prelude.{
  ℕ, ◌≡◌, refl, ◌∙◌, Bool, true, not, Option, none, some, List, [], ◌∷◌, ◌++◌, drop, arith,
  if◌then◌else◌,
}
use ultron.Text.{Text, codes, text_eq, text_eq_refl, all}
use ultron.Utils.{transform_to_full_name}
use ultron.Manager.{Manager}
use ultron.Value.{
  Value, Values, Fields, undefined, null, str, function, arr, obj, cons, end, get, put, truthy,
}
use ultron.Value.Objects.{get-put_self, get-put_other}
use ultron.Messages.{Config, ◌>>=◌}
use ultron.Filter.{Step}
use ultron.Coder.{Libraries}
use ultron.Event
use ultron.Event.{Input, type_list, or_else, block_keys, completed, last_function, last_or}
use ultron.Event.Execute.{Handles, new_filter}

-- What the interface of a contract says of an event.
pub record Description : Type 0 where
  pub name : Text
  pub inputs : List Input
  pub anonymous : Bool

pub record AllSolidityEvents (Big : Type 0) : Type 0 where
  pub json : List Description
  pub address : Value Big

abbrev pub full_name : Description → Text
unfolding transform_to_full_name
full_name j = transform_to_full_name j.name (type_list j.inputs)

module _ {Big : Type 0} where
  -- data.topics[0].slice(2)
  abbrev pub event_topic : Value Big → Option Text
  event_topic (arr (cons (str s) ts)) = some (drop 2 s)
  event_topic _ = none

  -- The options and the callback of execute.
  unfoldable pub given : List (Value Big) → Value Big × Option ℕ
  given [] = (undefined, none)
  given (function f ∷ []) = (null, some f)
  given (v ∷ []) = (v, none)
  given (v ∷ c ∷ rest) = (v, last_or c (last_function c rest))

module _ (lib : Libraries) where
  open lib.runtime use {sha3}
  open lib.runtime.big_number use {Big}

  unfoldable pub encode : AllSolidityEvents Big → Value Big → Value Big
  unfolding block_keys or_else put
  encode a options =
      obj (put (codes "address") a.address (block_keys lib (or_else options (obj end))))

  -- The first event whose hash is the topic.
  unfoldable pub match_of : Text → List Description → Option Description
  unfolding full_name text_eq
  match_of topic [] = none
  match_of topic (j ∷ js) = if text_eq topic (sha3 (full_name j)) then some j else match_of topic js

  abbrev pub event_of : AllSolidityEvents Big → Description → Event.SolidityEvent Big
  unfolding Event.create
  event_of a j = Event.create j.name j.inputs j.anonymous a.address

  abbrev pub decode_by :
      AllSolidityEvents Big → Fields Big → Option Description → Option (Value Big)
  unfolding event_of
  decode_by a data_ none = some (obj data_)
  decode_by a data_ (some j) = Event.decode lib (event_of a j) (obj data_)

  -- A log of no event of the contract stays.
  unfoldable pub decode : AllSolidityEvents Big → Value Big → Option (Value Big)
  unfolding completed match_of decode_by get
  decode a (obj fs) = do
    topic ← event_topic (get (codes "topics") (completed lib fs))
    decode_by a (completed lib fs) (match_of topic a.json)
  decode a v = none

  module _ (config : Config Big) (function_text : ℕ → Text) where
    unfoldable pub execute :
        Manager → Handles → AllSolidityEvents Big → List (Value Big) → Option (Step Big)
    unfolding given encode decode new_filter
    execute rm h a args =
        new_filter lib config function_text rm h (encode a (given args).0) (decode a) (given args).1

  match_of-first :
      (j : Description) (before after : List Description)
      → all (λ k. not (text_eq (sha3 (full_name j)) (sha3 (full_name k)))) before ≡ true
      → match_of (sha3 (full_name j)) (before ++ j ∷ after) ≡ some j
  unfolding match_of
  match_of-first j [] after h = rw (text_eq_refl (sha3 (full_name j))) refl
  match_of-first j (k ∷ ks) after h = ground (arith, match_of-first j ks after)

  completed-topics :
      (fs : Fields Big) (t : Value Big) (ts : Values Big)
      → get (codes "topics") fs ≡ arr (cons t ts)
      → get (codes "topics") (completed lib fs) ≡ arr (cons t ts)
  unfolding completed truthy text_eq
  completed-topics fs t ts h =
      let v = if truthy (get (codes "data") fs) then get (codes "data") fs else str [] in
      let same : get (codes "topics") (put (codes "data") v fs) ≡ arr (cons t ts) =
        get-put_other (codes "topics") (codes "data") v fs refl ∙ h in
      rw same (get-put_self (codes "topics") (arr (cons t ts)) (put (codes "data") v fs))

  -- A log whose first topic is the hash of an event of the contract is decoded by the first event of
  -- that hash, as the filter of that event decodes it.
  pub decode-event :
      (a : AllSolidityEvents Big) (j : Description) (before after : List Description)
      (fs : Fields Big) (ts : Values Big)
      → a.json ≡ before ++ j ∷ after
      → all (λ k. not (text_eq (sha3 (full_name j)) (sha3 (full_name k)))) before ≡ true
      → get (codes "topics") fs ≡ arr (cons (str (codes "0x" ++ sha3 (full_name j))) ts)
      → decode a (obj fs) ≡ Event.decode lib (event_of a j) (obj (completed lib fs))
  unfolding decode decode_by
  decode-event a j before after fs ts listed first topics =
      rw
        (
          completed-topics fs (str (codes "0x" ++ sha3 (full_name j))) ts topics,
          listed,
          match_of-first j before after first,
        )
        refl
