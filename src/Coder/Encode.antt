-- ===== src/Coder/Encode.antt =====
-- SolidityType.encode, encodeParams, encodeMultiWithOffset and encodeWithOffset of
-- src/console/jsre/deps/web3.js.
use ultron.Prelude.{
  ℕ, zero, suc, ◌+◌, ◌*◌, ◌/◌, Bool, true, false, Option, none, some, List, [], ◌∷◌, ◌++◌,
  if◌then◌else◌, length, get_elem?,
}
use mathlib.Core.Option
use ultron.Prelude.Int.{pos}
use ultron.Text.{Text}
use ultron.Text.Radix.{digits}
use ultron.Utils.{number}
use ultron.Value.{Value, undefined, null, str, arr, obj, get, items}
use ultron.Messages.{◌>>=◌}
use ultron.Abi.{
  Kind, nested_name, is_dynamic_array, is_static_array, static_array_length, static_part_length,
  is_dynamic, require_type,
}
use ultron.Formatters
use ultron.Formatters.{word}
use ultron.Coder.{
  Libraries, Encoded, Encodeds, text, list, empty, next, first_number, add_to, rounded, depth_of,
  input_formatter,
}

-- A param with its type, the kind of the type, and what encode gave for it.
pub record Entry : Type 0 where
  pub type : Text
  pub kind : Kind
  pub encoded : Encoded

-- The bytes of an entry in the static part of the encoding, and the sum of them.
unfoldable pub head_size : Entry → ℕ
unfolding is_dynamic static_part_length
head_size e = if is_dynamic e.kind e.type then 32 else rounded (static_part_length e.type)

unfoldable pub head_sizes : List Entry → ℕ
unfolding head_size
head_sizes [] = 0
head_sizes (e ∷ es) = head_size e + head_sizes es

-- A dynamic entry has its text behind the static part.
abbrev pub tail_text : Bool → Text → Text
tail_text true s = s
tail_text false s = []

-- dynamicOffset += e.length / 2
abbrev pub behind : Bool → ℕ → Text → ℕ
behind true offset s = offset + length s / 2
behind false offset s = offset

module _ (lib : Libraries) where
  open lib.runtime use {big_number}
  open lib.runtime.big_number use {Big}

  -- f.formatInputInt(n).encode()
  abbrev pub encode_number : ℕ → Option Text
  encode_number n = word big_number (number (pos n))

  -- value[i]: null and undefined have no properties.
  unfoldable pub item_at : Value Big → ℕ → Option (Value Big)
  unfolding get digits
  item_at undefined i = none
  item_at null i = none
  item_at (str s) i = elim (get_elem? s i) [ none ↦ some undefined | some c ↦ some (str (c ∷ [])) ]
  item_at (arr vs) i = elim (get_elem? (items vs) i) [ none ↦ some undefined | some v ↦ some v ]
  item_at (obj fs) i = some (get (digits 10 i) fs)
  item_at v i = some undefined

  module _ (encode_item : Value Big → Option Encoded) where
    -- value.forEach
    unfoldable pub encode_each : List (Value Big) → Option Encodeds
    encode_each [] = some empty
    encode_each (v ∷ vs) = do e ← encode_item v; es ← encode_each vs; some (next e es)

    -- The length as a number, and the items; only an array has forEach.
    unfoldable pub encode_dynamic : Value Big → Option Encoded
    unfolding encode_each
    encode_dynamic (arr vs) = do
      l ← encode_number (length (items vs))
      es ← encode_each (items vs)
      some (list (next (text l) es))
    encode_dynamic v = none

    -- The items from `i` on, `n` of them.
    unfoldable pub encode_items : ℕ → ℕ → Value Big → Option Encodeds
    unfolding item_at
    encode_items zero i v = some empty
    encode_items (suc n) i v = do
      w ← item_at v i
      e ← encode_item w
      es ← encode_items n (suc i) v
      some (next e es)

  -- this._inputFormatter(value, name).encode()
  unfoldable pub encode_plain : Kind → Value Big → Option Encoded
  unfolding input_formatter Formatters.encode
  encode_plain k v = do
    p ← input_formatter lib k v
    s ← Formatters.encode big_number p
    some (text s)

  -- encode, on fuel: one unit for each pair of brackets and one for the name.
  unfoldable pub encode : ℕ → Kind → Text → Value Big → Option Encoded
  unfolding encode_plain encode_dynamic encode_items nested_name is_dynamic_array is_static_array
      static_array_length
  encode zero k name v = none
  encode (suc fuel) k name v =
      let encode_item = encode fuel k (nested_name name) in
      if is_dynamic_array name
      then encode_dynamic encode_item v
      else if is_static_array name
      then Option.map list (encode_items encode_item (static_array_length name) 0 v)
      else encode_plain k v

  -- The offset of an array within an array.
  abbrev pub encode_offset : Option ℕ → Option Text
  encode_offset none = none
  encode_offset (some n) = encode_number n

  -- The loop over the nested arrays from index `i` on; `previous` is encoded[i - 1].
  unfoldable pub nested_offsets : Option ℕ → ℕ → ℕ → ℕ → Encoded → Encodeds → Option Text
  unfolding first_number
  nested_offsets offset size i previous_length previous empty = some []
  nested_offsets offset size i previous_length previous (next e es) = do
    let sum = previous_length + first_number previous
    o ← encode_offset (add_to offset (i * size + sum * 32))
    r ← nested_offsets offset size (suc i) sum e es
    some (o ++ r)

  unfoldable pub nested_offsets_of : Option ℕ → Text → ℕ → ℕ → Encoded → Encodeds → Option Text
  unfolding nested_offsets is_dynamic_array static_part_length
  nested_offsets_of offset nested i previous_length previous es =
      if is_dynamic_array nested
      then nested_offsets offset (static_part_length nested) i previous_length previous es
      else some []

  abbrev pub encode_rest : (Encoded → Option Text) → Encodeds → Option Text
  encode_rest f empty = some []
  encode_rest f (next e es) = do s ← f e; r ← encode_rest f es; some (s ++ r)

  -- The length first, then the offsets, then the items.
  abbrev pub dynamic_with_offset : (Encoded → Option Text) → Option ℕ → Text → Encoded → Option Text
  dynamic_with_offset f offset nested (list (next (text l) es)) = do
    o ← nested_offsets_of offset nested 1 2 (text l) es
    r ← encode_rest f es
    some (l ++ (o ++ r))
  dynamic_with_offset f offset nested e = none

  abbrev pub static_with_offset : (Encoded → Option Text) → Option ℕ → Text → Encoded → Option Text
  static_with_offset f offset nested (list es) = do
    o ← nested_offsets_of offset nested 0 0 (list empty) es
    r ← encode_rest f es
    some (o ++ r)
  static_with_offset f offset nested (text s) = none

  abbrev pub text_of : Encoded → Option Text
  text_of (text s) = some s
  text_of (list es) = none

  -- encodeWithOffset, on fuel as encode.
  unfoldable pub encode_with_offset : ℕ → Text → Encoded → Option ℕ → Option Text
  unfolding nested_name is_dynamic_array is_static_array
  encode_with_offset zero type e offset = none
  encode_with_offset (suc fuel) type e offset =
      let item = λ (e' : Encoded). encode_with_offset fuel (nested_name type) e' none in
      if is_dynamic_array type
      then dynamic_with_offset item offset (nested_name type) e
      else if is_static_array type
      then static_with_offset item offset (nested_name type) e
      else text_of e

  abbrev pub at_offset : Entry → ℕ → Option Text
  unfolding encode_with_offset
  at_offset e offset = encode_with_offset (depth_of e.type) e.type e.encoded (some offset)

  -- A dynamic entry has its offset in the static part.
  abbrev pub head_text : Bool → ℕ → Text → Option Text
  head_text true offset s = encode_number offset
  head_text false offset s = some s

  -- The first loop: what stands in the static part, and the offset behind it.
  unfoldable pub heads : ℕ → List Entry → Option (Text × ℕ)
  unfolding is_dynamic encode_with_offset
  heads offset [] = some ([], offset)
  heads offset (e ∷ es) = do
    s ← at_offset e offset
    h ← head_text (is_dynamic e.kind e.type) offset s
    (r, end) ← heads (behind (is_dynamic e.kind e.type) offset s) es
    some (h ++ r, end)

  -- The second loop: what the offsets point to.
  unfoldable pub tails : ℕ → List Entry → Option Text
  unfolding is_dynamic encode_with_offset
  tails offset [] = some []
  tails offset (e ∷ es) = do
    s ← at_offset e offset
    r ← tails (behind (is_dynamic e.kind e.type) offset s) es
    some (tail_text (is_dynamic e.kind e.type) s ++ r)

  unfoldable pub encode_multi_with_offset : ℕ → List Entry → Option Text
  unfolding heads tails
  encode_multi_with_offset offset es = do
    (h, end) ← heads offset es
    t ← tails end es
    some (h ++ t)

  abbrev pub first_param : List (Value Big) → Value Big
  first_param [] = undefined
  first_param (v ∷ vs) = v

  abbrev pub other_params : List (Value Big) → List (Value Big)
  other_params [] = []
  other_params (v ∷ vs) = vs

  -- One param for each type, undefined where there are too few.
  unfoldable pub entries : List Text → List (Value Big) → Option (List Entry)
  unfolding require_type encode
  entries [] vs = some []
  entries (t ∷ ts) vs = do
    k ← require_type t
    e ← encode (depth_of t) k t (first_param vs)
    es ← entries ts (other_params vs)
    some (record { type = t; kind = k; encoded = e } ∷ es)

  unfoldable pub encode_params : List Text → List (Value Big) → Option Text
  unfolding entries encode_multi_with_offset head_sizes
  encode_params types params = do
    es ← entries types params
    encode_multi_with_offset (head_sizes es) es

  unfoldable pub encode_param : Text → Value Big → Option Text
  unfolding encode_params
  encode_param type param = encode_params (type ∷ []) (param ∷ [])
