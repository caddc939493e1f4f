-- ===== src/Filter/Options.antt =====
-- getOptions and toTopic of filter.js in src/console/jsre/deps/web3.js, on the options that the page
-- gives to a filter. `none` is an exception. The options of the page get the new topics too, which
-- is left out, and so is a function inside a list that is a topic.
use ultron.Prelude.{
  ℕ, ◌≡◌, refl, sym, ap, ◌∙◌, Bool, true, false, ◌&&◌, Option, none, some, if◌then◌else◌,
  Bool-cases, inl, inr,
}
use ultron.Text.{Text, codes, starts_with, text_eq}
use ultron.Json.{property_key}
use ultron.Utils.{from_utf8}
use ultron.Value.{
  Value, Values, Fields, undefined, null, bool, num, str, big, function, arr, obj, nil, cons, end,
  field, get, truthy,
}
use ultron.Method.Convert.{to_json}
use ultron.Messages.{Runtime, input_block_number}

-- `function_text` is what String makes of a function.
module _ (rt : Runtime) (function_text : ℕ → Text) where
  open rt use {big_number, utf8_encode}

  -- String(value)
  unfoldable pub string_of : Value big_number.Big → Text
  unfolding property_key to_json
  string_of undefined = codes "undefined"
  string_of (function f) = function_text f
  string_of v = property_key (to_json (big_number.to_text 10) v)

  abbrev pub hex_topic : Text → Text
  hex_topic s = if starts_with (codes "0x") s then s else from_utf8 utf8_encode s

  unfoldable pub to_topic : Value big_number.Big → Value big_number.Big
  unfolding string_of from_utf8 starts_with
  to_topic undefined = null
  to_topic null = null
  to_topic v = str (hex_topic (string_of v))

  unfoldable pub to_topics : Values big_number.Big → Values big_number.Big
  unfolding to_topic
  to_topics nil = nil
  to_topics (cons v vs) = cons (to_topic v) (to_topics vs)

  -- utils.isArray(topic) ? topic.map(toTopic) : toTopic(topic)
  unfoldable pub topic_or_topics : Value big_number.Big → Value big_number.Big
  unfolding to_topics
  topic_or_topics (arr vs) = arr (to_topics vs)
  topic_or_topics v = to_topic v

  unfoldable pub map_topics : Values big_number.Big → Values big_number.Big
  unfolding topic_or_topics
  map_topics nil = nil
  map_topics (cons v vs) = cons (topic_or_topics v) (map_topics vs)

  -- Only an array has a map.
  abbrev pub topics_of : Value big_number.Big → Option (Values big_number.Big)
  topics_of (arr vs) = some (map_topics vs)
  topics_of _ = none

  -- options.topics || []
  abbrev pub or_empty : Value big_number.Big → Value big_number.Big
  or_empty v = if truthy v then v else arr nil

  -- What the properties of an object are read from; other values have none of them.
  abbrev pub fields_of : Value big_number.Big → Fields big_number.Big
  fields_of (obj fs) = fs
  fields_of _ = end

  -- A primitive value keeps no topics, and what it has in their place has no map.
  abbrev pub topics_in : Value big_number.Big → Option (Values big_number.Big)
  topics_in (bool true) = none
  topics_in (num z) = if truthy {Big = big_number.Big} (num z) then none else some nil
  topics_in v = topics_of (or_empty (get (codes "topics") (fields_of v)))

  -- The object that the constructor keeps.
  unfoldable pub options_of :
      Fields big_number.Big → Option (Values big_number.Big) → Option (Value big_number.Big)
  unfolding get
  options_of fs none = none
  options_of fs (some topics) = some (
      obj (
        field (codes "topics") (arr topics) (
          field (codes "from") (get (codes "from") fs) (
            field (codes "to") (get (codes "to") fs) (
              field (codes "address") (get (codes "address") fs) (
                field (codes "fromBlock") (input_block_number rt (get (codes "fromBlock") fs)) (
                  field (codes "toBlock") (input_block_number rt (get (codes "toBlock") fs))
                    end)))))))

  unfoldable pub get_options : Value big_number.Big → Option (Value big_number.Big)
  unfolding options_of map_topics truthy
  get_options (str s) = some (str s)
  get_options v = options_of (fields_of v) (topics_in v)

  -- null, or a text with 0x in front.
  abbrev pub is_topic : Value big_number.Big → Bool
  is_topic null = true
  is_topic (str s) = starts_with (codes "0x") s
  is_topic _ = false

  abbrev pub all_topics : Values big_number.Big → Bool
  all_topics nil = true
  all_topics (cons v vs) = is_topic v && all_topics vs

  -- One place of the list: a topic or a list of topics to choose from.
  abbrev pub is_place : Value big_number.Big → Bool
  is_place (arr vs) = all_topics vs
  is_place v = is_topic v

  abbrev pub all_places : Values big_number.Big → Bool
  all_places nil = true
  all_places (cons v vs) = is_place v && all_places vs

  hex_topic_lem : (s : Text) → starts_with (codes "0x") (hex_topic s) ≡ true
  unfolding starts_with from_utf8
  hex_topic_lem s = elim (Bool-cases (starts_with (codes "0x") s)) [
    | inl e ↦ rw e e
    | inr e ↦ rw e refl
  ]

  to_topic_lem : (v : Value big_number.Big) → is_topic (to_topic v) ≡ true
  unfolding to_topic
  to_topic_lem undefined = refl
  to_topic_lem null = refl
  to_topic_lem (bool b) = hex_topic_lem (string_of (bool b))
  to_topic_lem (num z) = hex_topic_lem (string_of (num z))
  to_topic_lem (str s) = hex_topic_lem (string_of (str s))
  to_topic_lem (big x) = hex_topic_lem (string_of (big x))
  to_topic_lem (function f) = hex_topic_lem (string_of (function f))
  to_topic_lem (arr vs) = hex_topic_lem (string_of (arr vs))
  to_topic_lem (obj fs) = hex_topic_lem (string_of (obj fs))

  to_topics_lem : (vs : Values big_number.Big) → all_topics (to_topics vs) ≡ true
  unfolding to_topics
  to_topics_lem nil = refl
  to_topics_lem (cons v vs) = rw (to_topic_lem v, to_topics_lem vs) refl

  topic_or_topics_lem : (v : Value big_number.Big) → is_place (topic_or_topics v) ≡ true
  unfolding topic_or_topics to_topic
  topic_or_topics_lem (arr vs) = to_topics_lem vs
  topic_or_topics_lem undefined = refl
  topic_or_topics_lem null = refl
  topic_or_topics_lem (bool b) = hex_topic_lem (string_of (bool b))
  topic_or_topics_lem (num z) = hex_topic_lem (string_of (num z))
  topic_or_topics_lem (str s) = hex_topic_lem (string_of (str s))
  topic_or_topics_lem (big x) = hex_topic_lem (string_of (big x))
  topic_or_topics_lem (function f) = hex_topic_lem (string_of (function f))
  topic_or_topics_lem (obj fs) = hex_topic_lem (string_of (obj fs))

  map_topics_lem : (vs : Values big_number.Big) → all_places (map_topics vs) ≡ true
  unfolding map_topics
  map_topics_lem nil = refl
  map_topics_lem (cons v vs) = rw (topic_or_topics_lem v, map_topics_lem vs) refl

  abbrev topics_fit : Option (Values big_number.Big) → Bool
  topics_fit none = true
  topics_fit (some vs) = all_places vs

  topics_of_lem : (v : Value big_number.Big) → topics_fit (topics_of v) ≡ true
  topics_of_lem (arr vs) = map_topics_lem vs
  topics_of_lem undefined = refl
  topics_of_lem null = refl
  topics_of_lem (bool b) = refl
  topics_of_lem (num z) = refl
  topics_of_lem (str s) = refl
  topics_of_lem (big x) = refl
  topics_of_lem (function f) = refl
  topics_of_lem (obj fs) = refl

  topics_in_lem : (v : Value big_number.Big) → topics_fit (topics_in v) ≡ true
  unfolding get
  topics_in_lem (bool true) = refl
  topics_in_lem (num z) = elim (Bool-cases (truthy {Big = big_number.Big} (num z))) [
    | inl e ↦ rw e refl
    | inr e ↦ rw e refl
  ]
  topics_in_lem (bool false) = topics_of_lem _
  topics_in_lem undefined = topics_of_lem _
  topics_in_lem null = topics_of_lem _
  topics_in_lem (str s) = topics_of_lem (or_empty undefined)
  topics_in_lem (big x) = topics_of_lem (or_empty undefined)
  topics_in_lem (function f) = topics_of_lem (or_empty undefined)
  topics_in_lem (arr vs) = topics_of_lem (or_empty undefined)
  topics_in_lem (obj fs) = topics_of_lem (or_empty (get (codes "topics") fs))

  -- A text, or an object whose topics are all in hexadecimal.
  abbrev pub has_topics : Value big_number.Big → Bool
  unfolding get
  has_topics (str s) = true
  has_topics (obj fs) = elim (get (codes "topics") fs) [ arr vs ↦ all_places vs | _ ↦ false ]
  has_topics _ = false

  abbrev options_fit : Option (Value big_number.Big) → Bool
  options_fit none = true
  options_fit (some v) = has_topics v

  options_of_lem :
      (fs : Fields big_number.Big) (topics : Option (Values big_number.Big))
      → topics_fit topics ≡ true
      → options_fit (options_of fs topics) ≡ true
  unfolding options_of get text_eq
  options_of_lem fs none h = refl
  options_of_lem fs (some vs) h = h

  get_options-fit : (v : Value big_number.Big) → options_fit (get_options v) ≡ true
  unfolding get_options
  get_options-fit (str s) = refl
  get_options-fit v = options_of_lem (fields_of v) (topics_in v) (topics_in_lem v)

  -- Whatever getOptions returns is a text, or an object in whose list of topics each place is null,
  -- a text with 0x in front, or a list of such.
  pub get_options-has_topics :
      (v result : Value big_number.Big) → get_options v ≡ some result → has_topics result ≡ true
  get_options-has_topics v result e = sym (ap options_fit e) ∙ get_options-fit v
