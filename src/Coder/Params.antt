-- ===== src/Coder/Params.antt =====
-- Params of calls, of the types for which encodeParams and decodeParams of src/console/jsre/deps/web3.js
-- are shown to agree: their types, values, sizes and what they are decoded to.
use ultron.Prelude.{
  ℕ, ◌+◌, ◌*◌, ◌<◌, ◌≡◌, refl, Bool, true, false, some, List, [], ◌∷◌, ◌++◌, ◌^◌, length, map,
}
use ultron.Prelude.Int.{ℤ, pos}
use ultron.Text.{Text, codes, all, is_digit, contains, starts_with}
use ultron.Text.Radix.{value}
use ultron.Value.{Value, of_list}
use ultron.Abi
use ultron.Abi.{
  Kind, require_type, first_type, is_type, only_brackets, after, static_part_length, is_dynamic,
  is_dynamic_array, nested_types, scan, product_from, nested_length,
}
use ultron.Abi.Names.{suffix, is_nil}
use ultron.Formatters.Numbers.{word_mod}
use ultron.Formatters.Signed.{IsSigned}
use ultron.Coder.{words_of}

pub types_known :
    (require_type (codes "int256") ≡ some Abi.int)
    × (require_type (codes "uint256") ≡ some Abi.uint)
    × (require_type (codes "bool") ≡ some Abi.bool)
    × (require_type (codes "bytes") ≡ some Abi.dynamic_bytes)
    × (require_type (codes "int256[]") ≡ some Abi.int)
unfolding require_type first_type is_type only_brackets after contains starts_with
types_known = (refl, refl, refl, refl, refl)

pub record Signed : Type 0 where
  pub integer : ℤ
  pub signed : IsSigned integer

pub record Natural : Type 0 where
  pub number : ℕ
  pub small : number < word_mod

-- int256, uint256, bool, bytes, int256[] and uint256[d].
pub data Param : Type 0 where
  int : Signed → Param
  uint : Natural → Param
  bool : Bool → Param
  bytes : (h : Text) (n : ℕ) → length h ≡ n * 2 → n < 2 ^ 53 → Param
  ints : (zs : List Signed) → length zs < word_mod → Param
  uints :
      (d : Text) (ns : List Natural)
      → all is_digit d ≡ true
      → is_nil d ≡ false
      → value 10 d ≡ length ns
      → 0 < length ns
      → require_type (codes "uint256" ++ suffix d) ≡ some Abi.uint
      → Param

abbrev pub type_of : Param → Text
type_of (int z) = codes "int256"
type_of (uint n) = codes "uint256"
type_of (bool b) = codes "bool"
type_of (bytes h n size small) = codes "bytes"
type_of (ints zs few) = codes "int256[]"
type_of (uints d ns digits there count some_items required) = codes "uint256" ++ suffix d

-- The bytes that a param takes in an encoding.
abbrev pub size_of : Param → ℕ
size_of (int z) = 32
size_of (uint n) = 32
size_of (bool b) = 32
size_of (bytes h n size small) = 64 + words_of n * 32
size_of (ints zs few) = 64 + length zs * 32
size_of (uints d ns digits there count some_items required) = length ns * 32

abbrev pub total : List Param → ℕ
total [] = 0
total (p ∷ ps) = size_of p + total ps

module _ {Big : Type 0} where
  abbrev pub param_of : Param → Value Big
  param_of (int z) = Value.num z.integer
  param_of (uint n) = Value.num (pos n.number)
  param_of (bool b) = Value.bool b
  param_of (bytes h n size small) = Value.str (codes "0x" ++ h)
  param_of (ints zs few) = Value.arr (of_list (map (λ z. Value.num z.integer) zs))
  param_of (uints d ns digits there count some_items required) =
      Value.arr (of_list (map (λ n. Value.num (pos n.number)) ns))

  -- Integers come back as big numbers, of which `of_int` gives the one for each.
  abbrev pub result_of : (ℤ → Big) → Param → Value Big
  result_of of_int (int z) = Value.big (of_int z.integer)
  result_of of_int (uint n) = Value.big (of_int (pos n.number))
  result_of of_int (bool b) = Value.bool b
  result_of of_int (bytes h n size small) = Value.str (codes "0x" ++ h)
  result_of of_int (ints zs few) = Value.arr (of_list (map (λ z. Value.big (of_int z.integer)) zs))
  result_of of_int (uints d ns digits there count some_items required) =
      Value.arr (of_list (map (λ n. Value.big (of_int (pos n.number))) ns))
