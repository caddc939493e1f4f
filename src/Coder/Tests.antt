-- ===== src/Coder/Tests.antt =====
-- Params that are encoded and decoded, and some that do not come back.
use ultron.Prelude.{
  ◌≡◌, ◌≢◌, ◌++◌, ◌<◌, ◌*◌, refl, true, some, List, [], ◌∷◌, map, arith, replicate,
}
use ultron.Prelude.Int.{pos, negsuc, ◌-ℤ◌}
use ultron.Text.{Text, codes, contains, starts_with}
use ultron.Text.Radix.{digits, value, value_from}
use ultron.BigNumber.Integers.{integers, integers-IsExact}
use ultron.Value.{Value, of_list, big}
use ultron.Messages.{◌>>=◌}
use ultron.Abi
use ultron.Formatters
use ultron.Formatters.{
  word, format_input_int, static_part, format_output_int, signed_value, signed_is_negative,
}
use ultron.Utils.{pad_left, to_twos_complement, to_big_number}
use ultron.Text.Number.{number_text}
use ultron.Coder.{
  depth_of, read_number, number_or_nan, output_formatter, input_formatter, Libraries, text, Encoded,
  list, next, empty, number_of_text,
}
use ultron.Coder.Encode.{
  Entry, nested_offsets_of, encode_params, head_sizes, encode_multi_with_offset,
}
use ultron.Formatters.Numbers.{padded}
use ultron.Coder.Decode.{decode_plain, decode_params, get_offsets, cut}
use ultron.Abi.{
  product_from, nested_length, require_type, first_type, is_type, only_brackets, after,
  nested_types, scan,
}
use ultron.Coder.Params.{Param, Signed, Natural, type_of, param_of, result_of}
use ultron.Coder.RoundTrip.{decode_params-encode_params}
use ultron.Coder.Samples.{int_type}
use ultron.Coder.Disagreement.{get_offsets-rows}

abbrev libraries : Libraries
libraries = record {
  runtime = record {
    big_number = integers;
    sha3 = λ t. replicate 64 b'f';
    utf8_encode = λ t. t;
    is_finite = λ t. true;
    stringify = λ v. codes "{}";
  };
  utf8_decode = λ t. t;
  unit = pos 1;
}

abbrev minus_five : Signed
minus_five = record { integer = negsuc 4; signed = omega arith }

abbrev two : Natural
two = record { number = 2; small = omega arith }

pair_known : require_type (codes "uint256[2]") ≡ some Abi.uint
unfolding require_type first_type is_type only_brackets after contains
pair_known = refl

two_is_two : value 10 (codes "2") ≡ 2
unfolding value value_from
two_is_two = refl

two_pos : 0 < value 10 (codes "2")
unfolding value value_from
two_pos = omega arith

two_many : 1 < value 10 (codes "2")
unfolding value value_from
two_many = omega arith

abbrev params : List Param
params =
    Param.int minus_five
    ∷ Param.ints (minus_five ∷ minus_five ∷ []) (omega arith)
    ∷ Param.uint two
    ∷ Param.bytes (codes "abcd") 2 refl (omega arith)
    ∷ Param.uints (codes "2") (two ∷ two ∷ []) refl refl two_is_two (omega arith) pair_known
    ∷ Param.bool true
    ∷ []

decode_params-encode_params_example :
    (encoded : Text) × (encode_params libraries (map type_of params) (map param_of params)
      ≡ some encoded)
    × (decode_params libraries (map type_of params) encoded
        ≡ some (map (result_of integers-IsExact.of_int) params))
decode_params-encode_params_example =
    decode_params-encode_params libraries integers-IsExact params (omega arith)

-- One pair of integers, and an integer behind it.
abbrev pair : Encoded
pair = list (
    next (text (replicate 64 b'1'))
      (next (list (next (text (replicate 64 b'2')) (next (text (replicate 64 b'3')) empty))) empty))

abbrev pair_entries : List Entry
pair_entries =
    record { type = codes "int256[2][]"; kind = Abi.int; encoded = pair }
    ∷ record { type = codes "int256"; kind = Abi.int; encoded = text (replicate 64 b'7') }
    ∷ []

abbrev pair_text : Text
pair_text =
    padded 64 ++ replicate 64 b'7' ++ replicate 64 b'1' ++ replicate 64 b'2' ++ replicate 64 b'3'

pair_written :
    encode_multi_with_offset libraries (head_sizes pair_entries) pair_entries ≡ some pair_text
unfolding encode_multi_with_offset contains after only_brackets depth_of scan word pad_left
    to_twos_complement to_big_number number_text digits value value_from static_part
    nested_offsets_of product_from nested_length starts_with ◌-ℤ◌ Abi.is_dynamic_type head_sizes
pair_written = refl

get_offsets-rows_example :
    (cut pair_text (some 32) 64 ≡ replicate 64 b'7')
    × (get_offsets 0 (codes "int256[2][]" ∷ codes "int256" ∷ [])
        ≡ 0 ∷ (32 * value 10 (codes "2")) ∷ [])
    × (32 * value 10 (codes "2") ≢ 32)
get_offsets-rows_example =
    get_offsets-rows int_type (codes "2") refl two_pos libraries integers-IsExact Abi.int pair
      (replicate 64 b'7') pair_text two_many refl pair_written

-- The integer behind an array of pairs is read from within that array.
misplaced :
    (encode_params libraries (codes "int256[2][]" ∷ codes "int256" ∷ []) (
        Value.arr (of_list (Value.arr (of_list (Value.num (pos 1) ∷ Value.num (pos 2) ∷ [])) ∷ []))
        ∷ Value.num (pos 7)
        ∷ [])
      >>= λ t. decode_params libraries (codes "int256[2][]" ∷ codes "int256" ∷ []) t)
    ≡ some (
        Value.arr (of_list (Value.arr (of_list (big (pos 1) ∷ big (pos 2) ∷ [])) ∷ []))
        ∷ big (pos 1)
        ∷ [])
unfolding encode_params decode_params is_type contains after only_brackets depth_of scan word
    pad_left to_twos_complement to_big_number number_text digits value value_from format_input_int
    static_part nested_offsets_of product_from nested_length read_number number_or_nan
    output_formatter input_formatter format_output_int signed_value signed_is_negative starts_with
    require_type first_type decode_plain Formatters.is_dynamic Formatters.dynamic_part ◌-ℤ◌
misplaced = refl

-- The length of an inner array, in hexadecimal digits, is read as a decimal number, with exponents.
lengths_read :
    (number_of_text (codes "0010") ≡ 10)
    × (number_of_text (codes "000a") ≡ 0)
    × (number_of_text (codes "01e3") ≡ 1000)
unfolding number_of_text value value_from
lengths_read = (refl, refl, refl)
