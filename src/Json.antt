-- ===== src/Json.antt =====
-- The JavaScript values that JSON has, with what web3.js asks of any value: its truth, a property,
-- the property key that it stands for. `none` is undefined, and a number is an integer.
use ultron.Prelude.{
  Bool, true, false, not, Option, none, some, List, [], ◌∷◌, ◌++◌, if◌then◌else◌, ◌==◌,
}
use ultron.Prelude.Int.{ℤ, pos}
use ultron.Text.{Text, codes, text_eq}
use ultron.Text.Number.{int, number_text}

mutual
  pub data Json : Type 0 where
    null : Json
    bool : Bool → Json
    num : ℤ → Json
    str : Text → Json
    arr : Items → Json
    obj : Fields → Json

  pub data Items : Type 0 where
    nil : Items
    cons : Json → Items → Items

  pub data Fields : Type 0 where
    end : Fields
    field : Text → Json → Fields → Fields

abbrev pub items : Items → List Json
items nil = []
items (cons v vs) = v ∷ items vs

abbrev pub of_list : List Json → Items
of_list [] = nil
of_list (v ∷ vs) = cons v (of_list vs)

unfoldable pub find : Text → Fields → Option Json
unfolding text_eq
find key end = none
find key (field k v rest) = if text_eq k key then some v else find key rest

-- value.key; a value that is no object has no such property.
unfoldable pub member : Text → Option Json → Option Json
unfolding find
member key (some (obj fs)) = find key fs
member key _ = none

-- !!value
unfoldable pub truthy : Option Json → Bool
truthy none = false
truthy (some null) = false
truthy (some (bool b)) = b
truthy (some (num (pos n))) = not (n == 0)
truthy (some (str [])) = false
truthy (some _) = true

-- String(value), which is the key that value[...] looks up.
unfoldable mutual
  pub key_text : Json → Text
  key_text null = codes "null"
  key_text (bool true) = codes "true"
  key_text (bool false) = codes "false"
  key_text (num x) = number_text (int x)
  key_text (str s) = s
  key_text (arr nil) = []
  key_text (arr (cons v vs)) = element_text v ++ rest_text vs
  key_text (obj fs) = codes "[object Object]"

  -- An array joins its elements, null as the empty text.
  pub element_text : Json → Text
  element_text null = []
  element_text (bool true) = codes "true"
  element_text (bool false) = codes "false"
  element_text (num x) = number_text (int x)
  element_text (str s) = s
  element_text (arr nil) = []
  element_text (arr (cons v vs)) = element_text v ++ rest_text vs
  element_text (obj fs) = codes "[object Object]"

  pub rest_text : Items → Text
  rest_text nil = []
  rest_text (cons v vs) = b',' ∷ (element_text v ++ rest_text vs)

unfoldable pub property_key : Option Json → Text
unfolding key_text
property_key none = codes "undefined"
property_key (some v) = key_text v
