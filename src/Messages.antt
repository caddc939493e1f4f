-- ===== src/Messages.antt =====
-- formatters.js of src/console/jsre/deps/web3.js: what goes to the node and what comes from it.
-- A formatter takes a value to a value; `none` is an exception. An array or a function that stands
-- where an object is expected is left alone, as a primitive value is, and arrays and objects count
-- as no numbers. An array that prints as an address is refused.
pub mod Outputs
pub mod Laws
pub mod Addresses
mod Tests
use ultron.Prelude.{
  ℕ, ◌*◌, Bool, true, false, not, ◌&&◌, ◌||◌, Option, none, some, List, [], ◌∷◌, ◌++◌, map,
  if◌then◌else◌, length, length,
}
use mathlib.Core.Option
use ultron.Prelude.Int.{ℤ, pos}
use ultron.Text.{Text, codes, text_eq, starts_with}
use ultron.BigNumber.{BigNumber}
use ultron.Utils
use ultron.Utils.{Input, to_big_number, from_decimal, from_utf8, to_ascii}
use ultron.Utils.Address.{is_strict_address, is_address}
use ultron.Iban
use ultron.Iban.{Iban}
use ultron.Value.{
  Value, Values, Fields, undefined, null, bool, num, str, big, function, arr, obj, nil, cons, end,
  field, get, put, truthy, is_undefined, is_null, items, of_list,
}

infixl 5 ◌>>=◌
abbrev pub ◌>>=◌ {ℓ κ} : {A : Type ℓ} {B : Type κ} → Option A → (A → Option B) → Option B
none >>= k = none
some a >>= k = k a

-- Code that is not of this repository, or belongs to the run time: bignumber.js, crypto-js, the
-- package utf8, isFinite of a text, JSON.stringify.
pub record Runtime : Type 1 where
  pub big_number : BigNumber
  pub sha3 : Text → Text
  pub utf8_encode : Text → Text
  pub is_finite : Text → Bool
  pub stringify : Value big_number.Big → Text

-- The settings that the page may change.
pub record Config (Big : Type 0) : Type 0 where
  pub default_block : Value Big
  pub default_account : Value Big

-- defaultBlock: 'latest', defaultAccount: undefined
abbrev pub settings : {Big : Type 0} → Config Big
settings = record { default_block = str (codes "latest"); default_account = undefined }

-- new Iban(address)
abbrev pub iban_of : Text → Iban
iban_of s = record { iban = s }

module _ (rt : Runtime) where
  open rt use {big_number, sha3, utf8_encode, is_finite, stringify}

  -- number || 0, as toBigNumber takes it
  unfoldable pub to_input : Value big_number.Big → Input big_number.Big
  to_input undefined = Utils.number (pos 0)
  to_input null = Utils.number (pos 0)
  to_input (bool b) = Utils.boolean b
  to_input (num z) = Utils.number z
  to_input (str s) = Utils.text s
  to_input (big x) = Utils.big x
  to_input _ = Utils.text (codes "NaN")

  abbrev pub to_decimal : Value big_number.Big → Value big_number.Big
  to_decimal v = num (pos (big_number.to_number (to_big_number big_number (to_input v))))

  abbrev pub to_big : Value big_number.Big → Value big_number.Big
  to_big v = big (to_big_number big_number (to_input v))

  abbrev pub decimal_text : Value big_number.Big → Value big_number.Big
  decimal_text v = str (from_decimal big_number (to_input v))

  -- typeof null is 'object' too.
  unfoldable pub to_hex_value : Value big_number.Big → Text
  to_hex_value null = from_utf8 utf8_encode (stringify null)
  to_hex_value (arr vs) = from_utf8 utf8_encode (stringify (arr vs))
  to_hex_value (obj fs) = from_utf8 utf8_encode (stringify (obj fs))
  to_hex_value v = Utils.to_hex big_number is_finite (to_input v)

  abbrev pub is_predefined_block_number : Value big_number.Big → Bool
  is_predefined_block_number (str s) =
      text_eq s (codes "latest") || text_eq s (codes "pending") || text_eq s (codes "earliest")
  is_predefined_block_number _ = false

  unfoldable pub input_block_number : Value big_number.Big → Value big_number.Big
  unfolding text_eq
  input_block_number v =
      if is_undefined v
      then undefined
      else if is_predefined_block_number v
      then v
      else str (to_hex_value v)

  unfoldable pub input_default_block_number :
      Config big_number.Big → Value big_number.Big → Value big_number.Big
  input_default_block_number config v =
      if is_undefined v then config.default_block else input_block_number v

  -- A valid direct IBAN, a strict address, or another address, which gets 0x. The fuel of isValid is
  -- twice the length of the longest number.
  unfoldable pub input_address : Value big_number.Big → Option (Value big_number.Big)
  input_address (str s) = do
    valid ← Iban.is_valid 70 (iban_of s)
    if valid && Iban.is_direct (iban_of s)
        then some (str (codes "0x" ++ Iban.address big_number (iban_of s)))
        else if is_strict_address s
        then some (str s)
        else (is_address sha3 s >>= λ known. if known then some (str (codes "0x" ++ s)) else none)
  input_address _ = none

  -- options[key] !== undefined: the key is converted.
  abbrev pub decimal_key : Text → Fields big_number.Big → Fields big_number.Big
  decimal_key key fs =
      if is_undefined (get key fs) then fs else put key (decimal_text (get key fs)) fs

  unfoldable pub decimal_keys : Fields big_number.Big → Fields big_number.Big
  unfolding get put
  decimal_keys fs =
      decimal_key (codes "nonce") (
        decimal_key (codes "value") (decimal_key (codes "gas") (decimal_key (codes "gasPrice") fs)))

  -- options.from || config.defaultAccount
  unfoldable pub sender : Config big_number.Big → Fields big_number.Big → Value big_number.Big
  unfolding get truthy
  sender config fs =
      if truthy (get (codes "from") fs) then get (codes "from") fs else config.default_account

  -- An address under a key that is set; the address of a contract that is created is not.
  unfoldable pub address_key : Text → Fields big_number.Big → Option (Fields big_number.Big)
  unfolding get put truthy
  address_key key fs =
      if truthy (get key fs)
      then (input_address (get key fs) >>= λ a. some (put key a fs))
      else some fs

  unfoldable pub input_call :
      Config big_number.Big → Value big_number.Big → Option (Value big_number.Big)
  unfolding decimal_keys sender address_key
  input_call config undefined = none
  input_call config null = none
  input_call config (obj fs) = do
    from ← address_key (codes "from") (put (codes "from") (sender config fs) fs)
    to ← address_key (codes "to") from
    some (obj (decimal_keys to))
  input_call config v = some v

  -- Here the sender has to be an address.
  unfoldable pub input_transaction :
      Config big_number.Big → Value big_number.Big → Option (Value big_number.Big)
  unfolding decimal_keys sender address_key
  input_transaction config (obj fs) = do
    from ← input_address (sender config fs)
    to ← address_key (codes "to") (put (codes "from") from fs)
    some (obj (decimal_keys to))
  input_transaction config _ = none

  -- Topics that begin with 0x stay, others are encoded; only texts have indexOf here.
  unfoldable pub post_topics : List (Value big_number.Big) → Option (List (Value big_number.Big))
  post_topics [] = some []
  post_topics (str s ∷ vs) = do
    rest ← post_topics vs
    some (str (if starts_with (codes "0x") s then s else from_utf8 utf8_encode s) ∷ rest)
  post_topics (_ ∷ vs) = none

  -- One topic stands for the list of it, and none for the empty list.
  abbrev pub topic_list : Value big_number.Big → List (Value big_number.Big)
  topic_list (arr vs) = items vs
  topic_list v = if truthy v then v ∷ [] else []

  unfoldable pub input_post : Value big_number.Big → Option (Value big_number.Big)
  unfolding get put truthy
  input_post (obj fs) = do
    let ttl = put (codes "ttl") (decimal_text (get (codes "ttl") fs)) fs
    let work = put (codes "workToProve") (decimal_text (get (codes "workToProve") ttl)) ttl
    let priority = put (codes "priority") (decimal_text (get (codes "priority") work)) work
    topics ← post_topics (topic_list (get (codes "topics") priority))
    some (obj (put (codes "topics") (arr (of_list topics)) priority))
  input_post _ = none
