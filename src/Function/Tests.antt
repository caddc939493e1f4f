-- ===== src/Function/Tests.antt =====
-- Functions of a contract at concrete values.
use ultron.Prelude.{
  ◌≡◌, ◌&&◌, if◌then◌else◌, refl, true, false, some, List, [], ◌∷◌, ◌++◌, map, arith, replicate,
  take, drop,
}
use ultron.Prelude.Int.{ℤ, pos}
use ultron.Text.{Text, codes, text_eq, contains, starts_with}
use ultron.Text.Number.{number_text}
use ultron.Text.Radix.{digits, value, value_from}
use ultron.BigNumber.Integers.{integers, integers-IsExact}
use ultron.Json
use ultron.Json.{Json, member, truthy}
use ultron.Dictionary.{lookup}
use ultron.Rpc
use ultron.Rpc.{is_valid_response, is_valid_message}
use ultron.Manager.{Manager, Provider}
use ultron.Manager.Invariant.{initial}
use ultron.Value
use ultron.Value.{big, undefined, str, num, obj, field, end, get}
use ultron.Messages.{settings}
use ultron.Abi.{
  is_dynamic_type, product_from, nested_length, require_type, first_type, is_type, only_brackets,
  after, scan,
}
use ultron.Formatters.{word, format_input_int, static_part}
use ultron.Formatters
use ultron.Utils.{pad_left, to_twos_complement, to_big_number}
use ultron.Coder.{Libraries, depth_of, input_formatter}
use ultron.Coder.Encode.{encode_params, nested_offsets_of}
use ultron.Coder.Decode.{decode_params}
use ultron.Coder.Params.{Param, Natural, param_of, result_of}
use ultron.Function.{SolidityFunction, get_data, not_payable, has_value, display_name, type_name}
use ultron.Function.Calls.{extract_default_block, send_transaction}
use ultron.Function.Payable.{is_positive}
use ultron.Function.Data.{get_data-params}
use ultron.Function.Remote.{Contract}
use ultron.Function.Sending.{send_transaction-not_payable, with_options}
use ultron.Function.Attached.{attach_to_contract, attach_to_contract_lem, overload_of, main_of}

abbrev libraries : Libraries
libraries = record {
  runtime = record {
    big_number = integers;
    sha3 = λ t. replicate 64 b'f';
    utf8_encode = λ t. t;
    is_finite = λ t. true;
    stringify = λ v. codes "{}";
  };
  utf8_decode = λ t. t;
  unit = pos 1;
}

abbrev half_address : Text
half_address = codes "0x00c5496aee77c1ba1f0854206a26dda82a81d6d8"

abbrev two : Natural
two = record { number = 2; small = omega arith }

abbrev numbers : List Param
numbers = Param.uint two ∷ []

abbrev half : SolidityFunction ℤ
half = record {
  input_types = codes "uint256" ∷ [];
  output_types = codes "uint256" ∷ [];
  constant = true;
  payable = false;
  name = codes "half(uint256)";
  address = str half_address;
}

abbrev word_of_two : Text
word_of_two = replicate 63 b'0' ++ codes "2"

-- A node whose answer is always two.
abbrev node : Provider
node = record {
  send = λ q. some (
      Json.obj (
        Json.field (codes "jsonrpc") (Json.str (codes "2.0")) (
          Json.field (codes "id") (Json.num (pos 1))
            (Json.field (codes "result") (Json.str (codes "0x" ++ word_of_two)) Json.end))));
}

encodes_two : encode_params libraries (codes "uint256" ∷ []) (num (pos 2) ∷ []) ≡ some word_of_two
unfolding encode_params is_type contains after only_brackets depth_of scan word pad_left
    to_twos_complement to_big_number number_text digits value value_from format_input_int
    static_part nested_offsets_of product_from nested_length input_formatter starts_with
    require_type first_type Formatters.is_dynamic Formatters.dynamic_part is_dynamic_type
encodes_two = refl

node_valid : (q : Rpc.Payload) → is_valid_response (node.send q) ≡ true
unfolding is_valid_response member is_valid_message text_eq truthy
node_valid q = refl

node_result :
    (q : Rpc.Payload)
    → member (codes "result") (node.send q) ≡ some (Json.str (codes "0x" ++ word_of_two))
unfolding member text_eq
node_result q = refl

abbrev contract : Contract libraries half half_address node
contract = record {
  value_of = λ args. numbers;
  text_of = λ args. word_of_two;
  types = λ args. refl;
  small = λ args. omega arith;
  encoded = λ args. encodes_two;
  answers = λ q d args h a k l. (node_valid q, node_result q);
}

abbrev manager : Manager
manager = initial (some node)

get_data-params_example :
    (data_ : Text) × (get_data libraries half (map param_of numbers) ≡ some data_)
    × (take 10 data_ ≡ codes "0x" ++ take 8 (libraries.runtime.sha3 half.name))
    × (decode_params libraries half.input_types (drop 10 data_)
        ≡ some (map (result_of integers-IsExact.of_int) numbers))
get_data-params_example =
    get_data-params libraries integers-IsExact half numbers refl (omega arith) refl

-- A big number that is given for the block stays among the arguments.
block_stays :
    extract_default_block libraries settings half (num (pos 2) ∷ big (pos 5) ∷ [])
    ≡ (num (pos 2) ∷ big (pos 5) ∷ [], undefined)
unfolding extract_default_block
block_stays = refl

one_is_a_value : has_value libraries (obj (field (codes "value") (num (pos 1)) end)) ≡ true
unfolding has_value get is_positive text_eq
one_is_a_value = refl

send_transaction-not_payable_example :
    send_transaction libraries settings manager half (
      with_options libraries
        (map param_of numbers)
        (field (codes "value") (num (pos 1)) end)
        (some 9))
    ≡ (manager, not_payable)
send_transaction-not_payable_example =
    send_transaction-not_payable libraries settings integers-IsExact manager half numbers
      (field (codes "value") (num (pos 1)) end) (some 9) refl (omega arith) refl one_is_a_value

attach_to_contract_example :
    (overload_of (attach_to_contract [] half) (codes "half") (codes "uint256") ≡ (
      if text_eq (display_name half) (codes "half") && text_eq (type_name half) (codes "uint256")
      then some half
      else overload_of [] (codes "half") (codes "uint256")))
    × (main_of (attach_to_contract [] half) (codes "half") ≡ (
        if text_eq (display_name half) (codes "half")
        then some half
        else main_of [] (codes "half")))
unfolding main_of lookup
attach_to_contract_example = attach_to_contract_lem [] half (codes "half") (codes "uint256")
