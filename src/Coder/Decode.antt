-- ===== src/Coder/Decode.antt =====
-- SolidityType.decode, decodeParams and getOffsets of src/console/jsre/deps/web3.js.
use ultron.Prelude.{ℕ, zero, suc, ◌+◌, ◌-◌, ◌*◌, Option, none, some, List, [], ◌∷◌, if◌then◌else◌}
use mathlib.Core.Option
use ultron.Text.{Text, substr}
use ultron.Value.{Value, Values, arr, nil, cons, undefined}
use ultron.Messages.{◌>>=◌}
use ultron.Abi.{
  Kind, nested_name, is_dynamic_array, is_static_array, static_array_length, static_part_length,
  is_dynamic_type, require_type,
}
use ultron.Formatters.{static_param}
use ultron.Coder.{
  Libraries, read_number, start_at, add_to, words_of, rounded, depth_of, output_formatter,
}

-- bytes.substr(offset * 2, count)
abbrev pub cut : Text → Option ℕ → ℕ → Text
cut bytes offset count = substr bytes (start_at offset * 2) count

-- parseInt('0x' + bytes.substr(offset * 2, 64))
unfoldable pub number_at : Text → Option ℕ → Option ℕ
unfolding read_number
number_at bytes offset = read_number (cut bytes offset 64)

-- The words of a dynamic type: its length and what follows; a length that is NaN cuts nothing.
abbrev pub counted_words : Text → Option ℕ → Option ℕ → Text
counted_words bytes offset none = []
counted_words bytes offset (some n) = cut bytes offset ((1 + words_of n) * 64)

-- A loop up to NaN makes no round.
abbrev pub rounds : Option ℕ → ℕ
rounds none = 0
rounds (some n) = n

-- The starts of the params: the sum of the lengths so far without the own one.
unfoldable pub get_offsets : ℕ → List Text → List ℕ
unfolding static_part_length
get_offsets sum [] = []
get_offsets sum (t ∷ ts) =
    let length = sum + static_part_length t in
    (length - static_part_length t) ∷ get_offsets length ts

module _ (lib : Libraries) where
  open lib.runtime.big_number use {Big}

  -- The items of an array that starts at `start`, `step` bytes apart.
  unfoldable pub decode_items :
      (Option ℕ → Option (Value Big)) → ℕ → Option ℕ → ℕ → Option (Values Big)
  decode_items item zero start step = some nil
  decode_items item (suc n) start step = do
    v ← item start
    vs ← decode_items item n (add_to start step) step
    some (cons v vs)

  unfoldable pub decode_dynamic_type : Kind → Text → Option ℕ → Text → Option (Value Big)
  unfolding number_at output_formatter
  decode_dynamic_type k bytes offset name =
      let dynamic_offset = number_at bytes offset in
      let length = number_at bytes dynamic_offset in
      output_formatter lib k
        (record { value = counted_words bytes dynamic_offset length; offset = some 0 }) name

  unfoldable pub decode_plain : Kind → Text → Option ℕ → Text → Option (Value Big)
  unfolding decode_dynamic_type static_part_length output_formatter is_dynamic_type
  decode_plain k bytes offset name =
      if is_dynamic_type k
      then decode_dynamic_type k bytes offset name
      else output_formatter lib k (static_param (cut bytes offset (static_part_length name * 2)))
          name

  -- decode, on fuel: one unit for each pair of brackets and one for the name.
  unfoldable pub decode : ℕ → Kind → Text → Option ℕ → Text → Option (Value Big)
  unfolding number_at decode_items decode_plain nested_name is_dynamic_array is_static_array
      static_array_length static_part_length
  decode zero k bytes offset name = none
  decode (suc fuel) k bytes offset name =
      let item = λ (start : Option ℕ). decode fuel k bytes start (nested_name name) in
      let step = rounded (static_part_length (nested_name name)) in
      let array_offset = number_at bytes offset in
      if is_dynamic_array name
      then Option.map arr
          (decode_items item (rounds (number_at bytes array_offset)) (add_to array_offset 32) step)
      else if is_static_array name
      then Option.map arr (decode_items item (static_array_length name) offset step)
      else decode_plain k bytes offset name

  unfoldable pub get_types : List Text → Option (List Kind)
  unfolding require_type
  get_types [] = some []
  get_types (t ∷ ts) = do k ← require_type t; ks ← get_types ts; some (k ∷ ks)

  -- One value for each type, at its offset.
  unfoldable pub decode_each : Text → List Text → List Kind → List ℕ → Option (List (Value Big))
  unfolding decode
  decode_each bytes (t ∷ ts) (k ∷ ks) (o ∷ os) = do
    v ← decode (depth_of t) k bytes (some o) t
    vs ← decode_each bytes ts ks os
    some (v ∷ vs)
  decode_each bytes _ _ _ = some []

  unfoldable pub decode_params : List Text → Text → Option (List (Value Big))
  unfolding decode_each get_offsets get_types
  decode_params types bytes = do
    ks ← get_types types
    decode_each bytes types ks (get_offsets 0 types)

  abbrev first_value : List (Value Big) → Value Big
  first_value [] = undefined
  first_value (v ∷ vs) = v

  unfoldable pub decode_param : Text → Text → Option (Value Big)
  unfolding decode_params
  decode_param type bytes = Option.map first_value (decode_params (type ∷ []) bytes)
