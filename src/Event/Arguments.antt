-- ===== src/Event/Arguments.antt =====
-- The arguments that an event of event.js in src/console/jsre/deps/web3.js reads from a log.
use ultron.Prelude.{
  ◌<◌, ◌≡◌, refl, ap, ◌∙◌, Bool, true, false, some, List, [], ◌∷◌, ◌++◌, arith, map, drop,
  if◌then◌else◌, Bool-cases, inl, inr,
}
use ultron.Text.{Text, codes, text_eq, text_eq_iff}
use ultron.BigNumber.{IsExact}
use ultron.Value.{
  Value, Values, Fields, str, arr, obj, end, field, items, of_list, get, put, truthy,
}
use ultron.Value.Objects.{get-put_other, get-put_self}
use ultron.Messages.Outputs.{output_log, log_fields}
use ultron.Formatters.Numbers.{word_mod}
use ultron.Coder.{Libraries}
use ultron.Coder.Encode.{encode_params}
use ultron.Coder.Decode.{decode_params}
use ultron.Coder.Params.{Param, type_of, param_of, result_of, total}
use ultron.Coder.RoundTrip.{decode_params-encode_params}
use ultron.Event.{
  Input, SolidityEvent, inputs_of, type_list, types, remove, joined, arguments, completed,
  decode_args, decode, finish, display_name,
}

-- An argument of an event, with the input that it is for.
pub record Argument : Type 0 where
  pub name : Text
  pub indexed : Bool
  pub param : Param

abbrev pub input_of : Argument → Input
input_of a = record { name = a.name; type = type_of a.param; indexed = a.indexed }

-- The params that are indexed, or those that are not.
abbrev pub selected : Bool → List Argument → List Param
selected true [] = []
selected true (a ∷ xs) = if a.indexed then a.param ∷ selected true xs else selected true xs
selected false [] = []
selected false (a ∷ xs) = if a.indexed then selected false xs else a.param ∷ selected false xs

types-selected :
    (b : Bool) (xs : List Argument)
    → type_list (inputs_of b (map input_of xs)) ≡ map type_of (selected b xs)
types-selected true [] = refl
types-selected true (a ∷ xs) = ground (arith, types-selected true xs)
types-selected false [] = refl
types-selected false (a ∷ xs) = ground (arith, types-selected false xs)

-- The topics behind 0x, joined.
abbrev pub joined_texts : List Text → Text
joined_texts [] = []
joined_texts (t ∷ ts) = drop 2 t ++ joined_texts ts

module _ (Big : Type 0) where
  abbrev pub topics : List Text → List (Value Big)
  topics ts = map (λ t. str t) ts

  items-of_list : (vs : List (Value Big)) → items (of_list vs) ≡ vs
  items-of_list [] = refl
  items-of_list (v ∷ vs) = ap (λ ws. v ∷ ws) (items-of_list vs)

  joined-topics : (ts : List Text) → joined (topics ts) ≡ some (joined_texts ts)
  joined-topics [] = refl
  joined-topics (t ∷ ts) = rw (joined-topics ts) refl

  -- The value of each argument under its name, in order.
  unfoldable pub named : (Param → Value Big) → List Argument → Fields Big → Fields Big
  unfolding put
  named value [] acc = acc
  named value (a ∷ xs) acc = named value xs (put a.name (value a.param) acc)

  arguments-named :
      (value : Param → Value Big) (xs : List Argument) (acc : Fields Big)
      → arguments
          (map input_of xs)
          (map value (selected true xs))
          (map value (selected false xs))
          acc
        ≡ named value xs acc
  unfolding arguments named
  arguments-named value [] acc = refl
  arguments-named value (a ∷ xs) acc = elim (Bool-cases a.indexed) [
    | inl i ↦ rw i (arguments-named value xs (put a.name (value a.param) acc))
    | inr o ↦ rw o (arguments-named value xs (put a.name (value a.param) acc))
  ]

  get-remove :
      (j key : Text) (fs : Fields Big) → text_eq key j ≡ false → get j (remove key fs) ≡ get j fs
  unfolding get remove
  get-remove j key end h = refl
  get-remove j key (field k w fs) h =
      ground (arith, text_eq_iff k key, text_eq_iff k j, text_eq_iff key j, get-remove j key fs h)

module _ (lib : Libraries) where
  open lib use {runtime}
  open lib.runtime.big_number use {Big}

  completed-full :
      (fs : Fields Big) (d : Text) (ts : Values Big)
      → get (codes "data") fs ≡ str (codes "0x" ++ d)
      → get (codes "topics") fs ≡ arr ts
      → (get (codes "data") (completed lib fs) ≡ str (codes "0x" ++ d))
        × (get (codes "topics") (completed lib fs) ≡ arr ts)
  unfolding completed truthy text_eq
  completed-full fs d ts data_ topics_ =
      let with_data = put (codes "data") (str (codes "0x" ++ d)) fs in
      let same : get (codes "topics") with_data ≡ arr ts =
        get-put_other (codes "topics") (codes "data") (str (codes "0x" ++ d)) fs refl ∙ topics_ in
      rw (data_) (
        rw same (
          get-put_other (codes "data") (codes "topics") (arr ts) with_data refl
              ∙ get-put_self (codes "data") (str (codes "0x" ++ d)) fs,
          get-put_self (codes "topics") (arr ts) with_data,
        ))

  -- The arguments of a log whose topics and data are the encodings of the params.
  decode_args-encoded :
      (e : SolidityEvent Big) (xs : List Argument) (value : Param → Value Big) (fs : Fields Big)
      (sig : Value Big) (ts : List Text) (first second : Text)
      → e.params ≡ map input_of xs
      → e.anonymous ≡ false
      → get (codes "topics") fs ≡ arr (of_list (sig ∷ topics Big ts))
      → get (codes "data") fs ≡ str (codes "0x" ++ second)
      → joined_texts ts ≡ first
      → decode_params lib (map type_of (selected true xs)) first
        ≡ some (map value (selected true xs))
      → decode_params lib (map type_of (selected false xs)) second
        ≡ some (map value (selected false xs))
      → decode_args lib e fs ≡ some (named Big value xs end)
  unfolding decode_args types
  decode_args-encoded e xs value fs sig ts first second inputs known topics_ data_ parts left
        right =
      rw
        (
          topics_,
          data_,
          known,
          inputs,
          items-of_list Big (topics Big ts),
          joined-topics Big ts,
          parts,
          types-selected true xs,
          types-selected false xs,
          left,
          right,
        )
        (ap some (arguments-named Big value xs end))

  -- The log without its topics and data, with the arguments and the name of the event.
  abbrev shown_log : SolidityEvent Big → Fields Big → Fields Big → Fields Big
  unfolding log_fields display_name remove put get
  shown_log e args fs =
      let gs = log_fields runtime fs in
      remove (codes "topics") (
        remove (codes "data") (
          put (codes "args") (obj args) (
            put (codes "address") (get (codes "address") gs)
              (put (codes "event") (str (display_name e)) gs))))

  decode-args :
      (e : SolidityEvent Big) (fs args : Fields Big)
      → decode_args lib e (completed lib fs) ≡ some args
      → decode lib e (obj fs) ≡ some (obj (shown_log e args (completed lib fs)))
  unfolding decode shown_log output_log finish
  decode-args e fs args h = rw h refl

  shown_log_lem :
      (e : SolidityEvent Big) (args fs : Fields Big)
      → (get (codes "args") (shown_log e args fs) ≡ obj args)
        × (get (codes "event") (shown_log e args fs) ≡ str (display_name e))
  unfolding shown_log text_eq
  shown_log_lem e args fs =
      let gs = log_fields runtime fs in
      let named_ = put (codes "event") (str (display_name e)) gs in
      let placed = put (codes "address") (get (codes "address") gs) named_ in
      let full = put (codes "args") (obj args) placed in
      let shorter = remove (codes "data") full in
      (
        get-remove Big (codes "args") (codes "topics") shorter refl
            ∙ get-remove Big (codes "args") (codes "data") full refl
            ∙ get-put_self (codes "args") (obj args) placed,
        get-remove Big (codes "event") (codes "topics") shorter refl
            ∙ get-remove Big (codes "event") (codes "data") full refl
            ∙ get-put_other (codes "event") (codes "args") (obj args) placed refl
            ∙ get-put_other (codes "event") (codes "address") (get (codes "address") gs) named_ refl
            ∙ get-put_self (codes "event") (str (display_name e)) gs,
      )

  decode_params-known :
      (exact : IsExact lib.runtime.big_number) (ps : List Param) (encoded : Text)
      → total ps < word_mod
      → encode_params lib (map type_of ps) (map param_of ps) ≡ some encoded
      → decode_params lib (map type_of ps) encoded ≡ some (map (result_of exact.of_int) ps)
  decode_params-known exact ps encoded small made =
      let (text, made', read) = decode_params-encode_params lib exact ps small in
      let same : text ≡ encoded = ground (arith, made, made') in rw same at read

  -- A log whose topics, behind the one of the event, make up the encoding of the indexed arguments,
  -- and whose data is the encoding of the others, is decoded: its args hold the value of each
  -- argument under its name, integers as big numbers, and its event is the event's name. The event
  -- is not anonymous, the arguments are of the types and within the bounds of Param, where a positive
  -- int256 is below 2 ^ 252, each encoding is of less than 2 ^ 256 bytes, and bignumber.js is exact on
  -- integers.
  pub decode-encode_params :
      (exact : IsExact lib.runtime.big_number) (e : SolidityEvent Big) (xs : List Argument)
      (fs : Fields Big) (sig : Value Big) (ts : List Text) (data_ : Text)
      → e.params ≡ map input_of xs
      → e.anonymous ≡ false
      → total (selected true xs) < word_mod
      → total (selected false xs) < word_mod
      → encode_params lib (map type_of (selected true xs)) (map param_of (selected true xs))
        ≡ some (joined_texts ts)
      → encode_params lib (map type_of (selected false xs)) (map param_of (selected false xs))
        ≡ some data_
      → get (codes "topics") fs ≡ arr (of_list (sig ∷ topics Big ts))
      → get (codes "data") fs ≡ str (codes "0x" ++ data_)
      → (log : Fields Big) × (decode lib e (obj fs) ≡ some (obj log))
        × (get (codes "args") log ≡ obj (named Big (result_of exact.of_int) xs end))
        × (get (codes "event") log ≡ str (display_name e))
  decode-encode_params exact e xs fs sig ts data_ inputs known few small left right in_topics
        in_data =
      let args = named Big (result_of exact.of_int) xs end in
      let (still_data, still_topics) =
        completed-full fs data_ (of_list (sig ∷ topics Big ts)) in_data in_topics in
      let decoded =
        decode_args-encoded e xs (result_of exact.of_int) (completed lib fs) sig ts
          (joined_texts ts) data_ inputs known still_topics still_data refl
          (decode_params-known exact (selected true xs) (joined_texts ts) few left)
          (decode_params-known exact (selected false xs) data_ small right) in
      let (has_args, has_event) = shown_log_lem e args (completed lib fs) in
      (shown_log e args (completed lib fs), decode-args e fs args decoded, has_args, has_event)
