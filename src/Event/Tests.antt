-- ===== src/Event/Tests.antt =====
-- An event with an indexed argument, and a log of it.
use ultron.Prelude.{◌≡◌, refl, true, false, some, List, [], ◌∷◌, ◌++◌, map, arith, replicate}
use ultron.Prelude.Int.{ℤ, pos}
use ultron.Text.{Text, codes, text_eq, contains, starts_with}
use ultron.Text.Number.{number_text}
use ultron.Text.Radix.{digits, value, value_from}
use ultron.BigNumber.Integers.{integers, integers-IsExact}
use ultron.Value.{Value, Fields, str, num, obj, arr, function, cons, nil, field, end, get, of_list}
use ultron.Abi.{
  is_dynamic_type, product_from, nested_length, require_type, first_type, is_type, only_brackets,
  after, scan,
}
use ultron.Formatters
use ultron.Formatters.{word, format_input_int, static_part}
use ultron.Utils.{pad_left, to_twos_complement, to_big_number}
use ultron.Coder.{Libraries, depth_of, input_formatter}
use ultron.Coder.Encode.{encode_params, nested_offsets_of}
use ultron.Coder.Params.{Param, Natural, result_of}
use ultron.Event.{SolidityEvent, given, display_name, decode, completed}
use ultron.Event.Arguments.{Argument, input_of, topics, named, decode-encode_params}
use ultron.Event.AllEvents
use ultron.Event.AllEvents.{AllSolidityEvents, Description, full_name, event_of, decode-event}

abbrev libraries : Libraries
libraries = record {
  runtime = record {
    big_number = integers;
    sha3 = λ t. replicate 64 b'f';
    utf8_encode = λ t. t;
    is_finite = λ t. true;
    stringify = λ v. codes "{}";
  };
  utf8_decode = λ t. t;
  unit = pos 1;
}

abbrev two : Natural
two = record { number = 2; small = omega arith }

abbrev paid : List Argument
paid =
    record { name = codes "id"; indexed = true; param = Param.uint two }
    ∷ record { name = codes "amount"; indexed = false; param = Param.uint two }
    ∷ []

abbrev payment : SolidityEvent ℤ
payment = record {
  params = map input_of paid;
  name = codes "Paid(uint256,uint256)";
  address = str (codes "0x01");
  anonymous = false;
}

abbrev word_of_two : Text
word_of_two = replicate 63 b'0' ++ codes "2"

abbrev hash : Value ℤ
hash = str (codes "0x" ++ replicate 64 b'f')

abbrev seen : Fields ℤ
seen =
    field (codes "topics") (arr (of_list (hash ∷ str (codes "0x" ++ word_of_two) ∷ [])))
      (field (codes "data") (str (codes "0x" ++ word_of_two)) end)

encodes_two : encode_params libraries (codes "uint256" ∷ []) (num (pos 2) ∷ []) ≡ some word_of_two
unfolding encode_params is_type contains after only_brackets depth_of scan word pad_left
    to_twos_complement to_big_number number_text digits value value_from format_input_int
    static_part nested_offsets_of product_from nested_length input_formatter starts_with
    require_type first_type Formatters.is_dynamic Formatters.dynamic_part is_dynamic_type
encodes_two = refl

in_topics :
    get (codes "topics") seen ≡ arr (of_list (hash ∷ topics ℤ ((codes "0x" ++ word_of_two) ∷ [])))
unfolding get text_eq
in_topics = refl

in_data : get (codes "data") seen ≡ str (codes "0x" ++ word_of_two)
unfolding get text_eq
in_data = refl

decode-encode_params_example :
    (log : Fields ℤ) × (decode libraries payment (obj seen) ≡ some (obj log))
    × (get (codes "args") log ≡ obj (named ℤ (result_of integers-IsExact.of_int) paid end))
    × (get (codes "event") log ≡ str (display_name payment))
decode-encode_params_example =
    decode-encode_params libraries integers-IsExact payment paid seen hash
      ((codes "0x" ++ word_of_two) ∷ []) word_of_two refl refl (omega arith) (omega arith)
      encodes_two encodes_two in_topics in_data

abbrev description : Description
description = record { name = codes "Paid"; inputs = map input_of paid; anonymous = false }

abbrev every : AllSolidityEvents ℤ
every = record { json = description ∷ []; address = str (codes "0x01") }

decode-event_example :
    AllEvents.decode libraries every (obj seen)
    ≡ decode libraries (event_of libraries every description) (obj (completed libraries seen))
decode-event_example =
    decode-event libraries every description [] [] seen (cons (str (codes "0x" ++ word_of_two)) nil)
      refl refl in_topics

-- The contract, bound to an overload as its first argument, stands where the indexed values are read.
bound_first :
    given {Big = ℤ} (str (codes "contract") ∷ obj seen ∷ function 7 ∷ [])
    ≡ record { indexed = str (codes "contract"); options = obj seen; callback = some 7 }
unfolding given
bound_first = refl
