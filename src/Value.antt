-- ===== src/Value.antt =====
-- JavaScript values as web3.js passes them around: what JSON has, big numbers, callbacks (which are
-- numbers here) and undefined. A number is an integer. Objects keep the order of their keys.
pub mod Objects
use ultron.Prelude.{
  ℕ, Bool, true, false, not, Option, none, some, List, [], ◌∷◌, if◌then◌else◌, ◌==◌,
}
use ultron.Prelude.Int.{ℤ, pos}
use ultron.Text.{Text, codes, text_eq, starts_with}

mutual
  pub data Value (Big : Type 0) : Type 0 where
    undefined : Value Big
    null : Value Big
    bool : Bool → Value Big
    num : ℤ → Value Big
    str : Text → Value Big
    big : Big → Value Big
    function : ℕ → Value Big
    arr : Values Big → Value Big
    obj : Fields Big → Value Big

  pub data Values (Big : Type 0) : Type 0 where
    nil : Values Big
    cons : Value Big → Values Big → Values Big

  pub data Fields (Big : Type 0) : Type 0 where
    end : Fields Big
    field : Text → Value Big → Fields Big → Fields Big

module _ {Big : Type 0} where
  abbrev pub items : Values Big → List (Value Big)
  items nil = []
  items (cons v vs) = v ∷ items vs

  abbrev pub of_list : List (Value Big) → Values Big
  of_list [] = nil
  of_list (v ∷ vs) = cons v (of_list vs)

  -- object[key]; what every object inherits is left out.
  unfoldable pub get : Text → Fields Big → Value Big
  get key end = undefined
  get key (field k v rest) = if text_eq k key then v else get key rest

  -- object[key] = value
  unfoldable pub put : Text → Value Big → Fields Big → Fields Big
  put key value end = field key value end
  put key value (field k v rest) =
      if text_eq k key then field k value rest else field k v (put key value rest)

  -- !!value; a number is falsy at 0 only, a big number is an object.
  unfoldable pub truthy : Value Big → Bool
  truthy undefined = false
  truthy null = false
  truthy (bool b) = b
  truthy (num (pos n)) = not (n == 0)
  truthy (str []) = false
  truthy _ = true

  abbrev pub is_undefined : Value Big → Bool
  is_undefined undefined = true
  is_undefined _ = false

  abbrev pub is_null : Value Big → Bool
  is_null null = true
  is_null _ = false

  -- The callback that a value is, if it is a function.
  abbrev pub callback_of : Value Big → Option ℕ
  callback_of (function f) = some f
  callback_of _ = none

  -- typeof value === 'string' && value.indexOf('0x') === 0
  abbrev pub is_hex_text : Value Big → Bool
  is_hex_text (str s) = starts_with (codes "0x") s
  is_hex_text _ = false
