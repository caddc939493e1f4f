-- ===== src/Abi.antt =====
-- The Solidity types of src/console/jsre/deps/web3.js (solidity/type.js and its nine kinds), and the
-- choice of a kind by _requireType. Regular expressions are read off as scanners.
pub mod Kinds
pub mod Names
mod Tests
use ultron.Prelude.{
  ℕ, ◌+◌, ◌-◌, ◌*◌, Bool, true, false, not, ◌&&◌, ◌||◌, Option, none, some, List, [], ◌∷◌, ◌++◌,
  map, if◌then◌else◌, leb, ◌==◌, length, take, drop,
}
use ultron.Text.{Text, codes, starts_with, contains, is_digit, all}
use ultron.Text.Radix.{value}

-- The brackets that a scan is in, if any, as far as they are read.
abbrev pub scan_next : Option Text → ℕ → Option Text
scan_next none c = if c == b'[' then some (c ∷ []) else none
scan_next (some read) c =
    if is_digit c then some (read ++ c ∷ []) else if c == b'[' then some (c ∷ []) else none

abbrev pub scan_found : Option Text → ℕ → List Text
scan_found none c = []
scan_found (some read) c = if c == b']' then (read ++ c ∷ []) ∷ [] else []

unfoldable pub scan : Option Text → Text → List Text
scan state [] = []
scan state (c ∷ s) = scan_found state c ++ scan (scan_next state c) s

-- name.match(/(\[[0-9]*\])/g), with [] for null
unfoldable pub nested_types : Text → List Text
nested_types name = scan none name

abbrev pub last_of : Text → List Text → Text
last_of t [] = t
last_of t (u ∷ us) = last_of u us

-- name.substr(0, name.length - last.length)
unfoldable pub nested_name : Text → Text
nested_name name = elim (nested_types name) [
  | [] ↦ name
  | t ∷ ts ↦ take (length name - length (last_of t ts)) name
]

abbrev pub digits_of : Text → Text
digits_of [] = []
digits_of (c ∷ s) = if is_digit c then c ∷ digits_of s else digits_of s

unfoldable pub is_dynamic_array : Text → Bool
is_dynamic_array name = elim (nested_types name) [
  | [] ↦ false
  | t ∷ ts ↦ elim (digits_of (last_of t ts)) [ [] ↦ true | _ ∷ _ ↦ false ]
]

unfoldable pub is_static_array : Text → Bool
is_static_array name = elim (nested_types name) [
  | [] ↦ false
  | t ∷ ts ↦ elim (digits_of (last_of t ts)) [ [] ↦ false | _ ∷ _ ↦ true ]
]

-- parseInt(last.match(/[0-9]{1,}/g) || 1)
unfoldable pub static_array_length : Text → ℕ
unfolding value
static_array_length name = elim (nested_types name) [
  | [] ↦ 1
  | t ∷ ts ↦ elim (digits_of (last_of t ts)) [ [] ↦ 1 | c ∷ s ↦ value 10 (c ∷ s) ]
]

-- parseInt(type.slice(1, -1), 10) || 1
unfoldable pub nested_length : Text → ℕ
unfolding value
nested_length t = let n = value 10 (digits_of t) in if n == 0 then 1 else n

unfoldable pub product_from : ℕ → List Text → ℕ
product_from acc [] = acc
product_from acc (t ∷ ts) = product_from (acc * nested_length t) ts

-- The reduction starts at 32; no brackets count as [1].
unfoldable pub static_part_length : Text → ℕ
static_part_length name = product_from 32 (nested_types name)

pub data Kind : Type 0 where
  address bool int uint dynamic_bytes bytes string real ureal : Kind

-- What stands behind a prefix.
unfoldable pub after : Text → Text → Option Text
after [] s = some s
after (_ ∷ _) [] = none
after (a ∷ p) (b ∷ s) = if a == b then after p s else none

-- (\[([0-9]*)\])*$, inside brackets or outside
unfoldable pub only_brackets : Bool → Text → Bool
only_brackets inside [] = not inside
only_brackets inside (c ∷ s) =
    (if inside then is_digit c || c == b']' else c == b'[')
    && only_brackets (if inside then not (c == b']') else true) s

abbrev pub skip_digits : Text → Text
skip_digits [] = []
skip_digits (c ∷ s) = if is_digit c then skip_digits s else c ∷ s

abbrev pub matches_suffix : (Text → Bool) → Option Text → Bool
matches_suffix test none = false
matches_suffix test (some s) = test s

abbrev pub begins_with_digit : Text → Bool
begins_with_digit [] = false
begins_with_digit (c ∷ s) = is_digit c

-- isType of each kind: the expressions of address and real are not anchored.
unfoldable pub is_type : Kind → Text → Bool
is_type address name = contains (codes "address") name
is_type bool name = matches_suffix (only_brackets false) (after (codes "bool") name)
is_type int name =
    matches_suffix (λ s. only_brackets false (skip_digits s)) (after (codes "int") name)
is_type uint name =
    matches_suffix (λ s. only_brackets false (skip_digits s)) (after (codes "uint") name)
is_type dynamic_bytes name = matches_suffix (only_brackets false) (after (codes "bytes") name)
is_type bytes name =
    matches_suffix (λ s. begins_with_digit s && only_brackets false (skip_digits s))
      (after (codes "bytes") name)
is_type string name = matches_suffix (only_brackets false) (after (codes "string") name)
is_type real name = contains (codes "real") name
is_type ureal name =
    matches_suffix (λ s. only_brackets false (skip_digits s)) (after (codes "ureal") name)

unfoldable pub is_dynamic_type : Kind → Bool
is_dynamic_type dynamic_bytes = true
is_dynamic_type string = true
is_dynamic_type _ = false

-- The kinds in the order in which the coder asks them.
abbrev pub coder_types : List Kind
coder_types = address ∷ bool ∷ int ∷ uint ∷ dynamic_bytes ∷ bytes ∷ string ∷ real ∷ ureal ∷ []

unfoldable pub first_type : Text → List Kind → Option Kind
first_type type [] = none
first_type type (k ∷ ks) = if is_type k type then some k else first_type type ks

-- `none` is the error for an invalid type.
unfoldable pub require_type : Text → Option Kind
unfolding first_type
require_type type = first_type type coder_types

unfoldable pub is_dynamic : Kind → Text → Bool
is_dynamic k type = is_dynamic_type k || is_dynamic_array type
