-- ===== src/Method/Convert.antt =====
-- Values of the page and values of JSON: a request is written by JSON.stringify, and an answer is
-- what was read.
use ultron.Prelude.{Option, none, some, List, map}
use ultron.Text.{Text}
use ultron.Json
use ultron.Json.{Json}
use ultron.Value
use ultron.Value.{Value, Values, Fields}

-- The text of a big number in JSON is a parameter.
module _ {Big : Type 0} where
  unfoldable mutual
    pub of_json : Json → Value Big
    of_json Json.null = Value.null
    of_json (Json.bool b) = Value.bool b
    of_json (Json.num z) = Value.num z
    of_json (Json.str s) = Value.str s
    of_json (Json.arr vs) = Value.arr (of_items vs)
    of_json (Json.obj fs) = Value.obj (of_fields fs)

    pub of_items : Json.Items → Values Big
    of_items Json.nil = Value.nil
    of_items (Json.cons v vs) = Value.cons (of_json v) (of_items vs)

    pub of_fields : Json.Fields → Fields Big
    of_fields Json.end = Value.end
    of_fields (Json.field k v fs) = Value.field k (of_json v) (of_fields fs)

  unfoldable pub of_answer : Option Json → Value Big
  unfolding of_json
  of_answer none = Value.undefined
  of_answer (some v) = of_json v

-- What JSON.stringify writes; a big number is written as `to_text` says. It drops properties that
-- are undefined or functions, and writes such elements of an array as null.
module _ {Big : Type 0} (to_text : Big → Text) where
  abbrev item_of : Option Json → Json
  item_of none = Json.null
  item_of (some v) = v

  abbrev field_of : Text → Option Json → Json.Fields → Json.Fields
  field_of k none fs = fs
  field_of k (some v) fs = Json.field k v fs

  unfoldable mutual
    pub to_json : Value Big → Option Json
    to_json Value.undefined = none
    to_json Value.null = some Json.null
    to_json (Value.bool b) = some (Json.bool b)
    to_json (Value.num z) = some (Json.num z)
    to_json (Value.str s) = some (Json.str s)
    to_json (Value.big x) = some (Json.str (to_text x))
    to_json (Value.function f) = none
    to_json (Value.arr vs) = some (Json.arr (to_items vs))
    to_json (Value.obj fs) = some (Json.obj (to_fields fs))

    pub to_items : Values Big → Json.Items
    to_items Value.nil = Json.nil
    to_items (Value.cons v vs) = Json.cons (item_of (to_json v)) (to_items vs)

    pub to_fields : Fields Big → Json.Fields
    to_fields Value.end = Json.end
    to_fields (Value.field k v fs) = field_of k (to_json v) (to_fields fs)

  unfoldable pub to_params : List (Value Big) → List Json
  unfolding to_json
  to_params vs = map (λ v. item_of (to_json v)) vs
