-- ===== src/Coder/Samples.antt =====
-- Integers, truth values and bytes as params of src/console/jsre/deps/web3.js: what the formatters make
-- of them, and of the words that they become.
use ultron.Prelude.{
  ℕ, ◌+◌, ◌-◌, ◌*◌, ◌/◌, ◌^◌, ◌<◌, ◌≡◌, refl, sym, ap, ◌∙◌, Bool, true, false, some, [], ◌++◌,
  arith, length, length-append, length-replicate, replicate, take, drop, leb, subst, if◌then◌else◌,
}
use ultron.Prelude.Int.{ℤ, pos}
use ultron.Text.{Text, codes, starts_with}
use ultron.Text.Slices.{take-append_self, drop-append_self}
use ultron.BigNumber.{IsExact}
use ultron.Utils.{number, to_hex, pad_right}
use ultron.Value.{Value}
use ultron.Messages.{to_input, to_hex_value}
use ultron.Abi
use ultron.Abi.{nested_types, scan, is_dynamic_type}
use ultron.Abi.Names.{IsClosed, scan_state}
use ultron.Formatters.{
  static_param, format_input_int, format_input_bool, format_output_int, format_output_uint,
  format_output_bool, static_part, with_length, fill_words, format_output_dynamic_bytes,
  dynamic_part, is_dynamic,
}
use ultron.Formatters.Numbers.{
  word_mod, wrap, wrap-lt, padded, length-padded, word-number, of_padded, Fits,
}
use ultron.Formatters.Signed.{
  IsSigned, IsSigned-Fits, format_output_int-format_input_int, format_output_uint-format_input_int,
}
use ultron.Coder.{Libraries, input_formatter, output_formatter, words_of}
use ultron.Coder.Items.{WordType, Element}
use ultron.Coder.Texts.{DynamicValue}

pub unbracketed :
    (nested_types (codes "int256") ≡ [])
    × (nested_types (codes "uint256") ≡ [])
    × (nested_types (codes "bool") ≡ [])
    × (nested_types (codes "bytes") ≡ [])
unfolding nested_types scan
unbracketed = (refl, refl, refl, refl)

pub all-IsClosed : IsClosed (codes "int256") × IsClosed (codes "uint256") × IsClosed (codes "bool")
unfolding scan_state
all-IsClosed = (refl, refl, refl)

pub not_dynamic :
    (is_dynamic_type Abi.int ≡ false)
    × (is_dynamic_type Abi.uint ≡ false)
    × (is_dynamic_type Abi.bool ≡ false)
unfolding is_dynamic_type
not_dynamic = (refl, refl, refl)

abbrev pub int_type : WordType
int_type = record {
  name = codes "int256";
  kind = Abi.int;
  plain = unbracketed.0;
  closed = all-IsClosed.0;
  fixed = not_dynamic.0;
}

abbrev pub uint_type : WordType
uint_type = record {
  name = codes "uint256";
  kind = Abi.uint;
  plain = unbracketed.1;
  closed = all-IsClosed.1;
  fixed = not_dynamic.1;
}

abbrev pub bool_type : WordType
bool_type = record {
  name = codes "bool";
  kind = Abi.bool;
  plain = unbracketed.2;
  closed = all-IsClosed.2;
  fixed = not_dynamic.2;
}

module _ (lib : Libraries) (exact : IsExact lib.runtime.big_number) where
  open lib.runtime use {big_number}

  int_word :
      (z : ℤ)
      → Fits z
      → format_input_int big_number (number z) ≡ some (static_param (padded (wrap z)))
  unfolding format_input_int
  int_word z h = rw (word-number big_number exact z h) refl

  some-injective {ℓ} : {A : Type ℓ} {x y : A} → some x ≡ some y → x ≡ y
  some-injective e = cc

  int_out :
      (z : ℤ)
      → IsSigned z
      → format_output_int big_number (static_param (padded (wrap z))) ≡ some (exact.of_int z)
  int_out z h =
      let (p, made, out) = format_output_int-format_input_int big_number exact z h in
      subst (λ q. format_output_int big_number q ≡ some (exact.of_int z))
        (some-injective (sym made ∙ int_word z (IsSigned-Fits z h))) out

  uint_out :
      (n : ℕ)
      → n < word_mod
      → format_output_uint big_number (static_param (padded n)) ≡ some (exact.of_int (pos n))
  uint_out n h =
      let (p, made, out) = format_output_uint-format_input_int big_number exact n h in
      subst (λ q. format_output_uint big_number q ≡ some (exact.of_int (pos n)))
        (some-injective (sym made ∙ int_word (pos n) h)) out

  goes_in_int :
      (z : ℤ)
      → Fits z
      → input_formatter lib Abi.int (Value.num z) ≡ some (static_param (padded (wrap z)))
  unfolding input_formatter to_input
  goes_in_int z h = int_word z h

  goes_in_uint :
      (n : ℕ)
      → n < word_mod
      → input_formatter lib Abi.uint (Value.num (pos n)) ≡ some (static_param (padded n))
  unfolding input_formatter to_input
  goes_in_uint n h = int_word (pos n) h

  comes_out_int :
      (z : ℤ)
      → IsSigned z
      → output_formatter lib Abi.int (static_param (padded (wrap z))) (codes "int256")
        ≡ some (Value.big (exact.of_int z))
  unfolding output_formatter
  comes_out_int z h = rw (int_out z h) refl

  comes_out_uint :
      (n : ℕ)
      → n < word_mod
      → output_formatter lib Abi.uint (static_param (padded n)) (codes "uint256")
        ≡ some (Value.big (exact.of_int (pos n)))
  unfolding output_formatter
  comes_out_uint n h = rw (uint_out n h) refl

  pub int_element : (z : ℤ) → IsSigned z → Element lib int_type
  int_element z h = record {
    param = Value.num z;
    word = padded (wrap z);
    result = Value.big (exact.of_int z);
    size = length-padded (wrap z) (wrap-lt z (IsSigned-Fits z h));
    goes_in = goes_in_int z (IsSigned-Fits z h);
    comes_out = comes_out_int z h;
  }

  pub uint_element : (n : ℕ) → n < word_mod → Element lib uint_type
  uint_element n h = record {
    param = Value.num (pos n);
    word = padded n;
    result = Value.big (exact.of_int (pos n));
    size = length-padded n h;
    goes_in = goes_in_uint n h;
    comes_out = comes_out_uint n h;
  }

  pub int_element_lem :
      (z : ℤ) (h : IsSigned z)
      → ((int_element z h).param ≡ Value.num z)
        × ((int_element z h).result ≡ Value.big (exact.of_int z))
  unfolding int_element
  int_element_lem z h = (refl, refl)

  pub uint_element_lem :
      (n : ℕ) (h : n < word_mod)
      → ((uint_element n h).param ≡ Value.num (pos n))
        × ((uint_element n h).result ≡ Value.big (exact.of_int (pos n)))
  unfolding uint_element
  uint_element_lem n h = (refl, refl)

  abbrev bool_word : Bool → Text
  bool_word b = replicate 63 b'0' ++ (if b then codes "1" else codes "0")

  goes_in_bool :
      (b : Bool) → input_formatter lib Abi.bool (Value.bool b) ≡ some (static_param (bool_word b))
  unfolding input_formatter format_input_bool
  goes_in_bool true = refl
  goes_in_bool false = refl

  comes_out_bool :
      (b : Bool)
      → output_formatter lib Abi.bool (static_param (bool_word b)) (codes "bool")
        ≡ some (Value.bool b)
  unfolding output_formatter format_output_bool static_part is_dynamic
  comes_out_bool true = refl
  comes_out_bool false = refl

  length-bool_word : (b : Bool) → length (bool_word b) ≡ 64
  length-bool_word true = refl
  length-bool_word false = refl

  pub bool_element : Bool → Element lib bool_type
  bool_element b = record {
    param = Value.bool b;
    word = bool_word b;
    result = Value.bool b;
    size = length-bool_word b;
    goes_in = goes_in_bool b;
    comes_out = comes_out_bool b;
  }

  pub bool_element_lem :
      (b : Bool)
      → ((bool_element b).param ≡ Value.bool b) × ((bool_element b).result ≡ Value.bool b)
  unfolding bool_element
  bool_element_lem b = (refl, refl)

  -- Bytes as hexadecimal digits, two for each.
  module _ (h : Text) (n : ℕ) (size : length h ≡ n * 2) (small : n < 2 ^ 53) where
    abbrev filled : Text
    filled = h ++ replicate ((length h + 63) / 64 * 64 - length h) b'0'

    filled-words : length filled ≡ words_of n * 64
    filled-words = omega (
      arith,
      size,
      length-append h (replicate ((length h + 63) / 64 * 64 - length h) b'0'),
      length-replicate {A = ℕ} ((length h + 63) / 64 * 64 - length h) b'0',
    )

    fits : n < word_mod
    fits = omega (arith, small)

    room : leb (length h) ((length h + 63) / 64 * 64 + 1) ≡ true
    room = ground arith

    halved : length h / 2 ≡ n
    halved = omega (arith, size)

    hex_text : to_hex_value lib.runtime (Value.str (codes "0x" ++ h)) ≡ codes "0x" ++ h
    unfolding to_hex_value to_input to_hex starts_with
    hex_text = refl

    goes_in_bytes :
        input_formatter lib Abi.dynamic_bytes (Value.str (codes "0x" ++ h))
        ≡ some (static_param (padded n ++ filled))
    unfolding input_formatter with_length fill_words pad_right
    goes_in_bytes = rw (hex_text, halved, word-number big_number exact (pos n) fits, room) refl

    after_length : drop 64 (padded n ++ filled) ≡ filled
    after_length =
        ap (λ (k : ℕ). drop k (padded n ++ filled)) (sym (length-padded n fits))
        ∙ drop-append_self (padded n) filled

    the_length : take 64 (padded n ++ filled) ≡ padded n
    the_length =
        ap (λ (k : ℕ). take k (padded n ++ filled)) (sym (length-padded n fits))
        ∙ take-append_self (padded n) filled

    the_bytes : take (n * 2) filled ≡ h
    the_bytes = ap (λ (k : ℕ). take k filled) (sym size) ∙ take-append_self h _

    comes_out_bytes :
        output_formatter lib Abi.dynamic_bytes
          (record { value = padded n ++ filled; offset = some 0 })
          (codes "bytes")
        ≡ some (Value.str (codes "0x" ++ h))
    unfolding output_formatter format_output_dynamic_bytes dynamic_part is_dynamic
    comes_out_bytes =
        rw
          (
            the_length,
            of_padded big_number exact n fits,
            exact.to_number_lem n small,
            after_length,
            the_bytes,
          )
          refl

    dynamic_bytes_type : is_dynamic_type Abi.dynamic_bytes ≡ true
    unfolding is_dynamic_type
    dynamic_bytes_type = refl

    pub bytes_value : DynamicValue lib (codes "bytes") Abi.dynamic_bytes
    bytes_value = record {
      plain = unbracketed.3;
      dynamic = dynamic_bytes_type;
      param = Value.str (codes "0x" ++ h);
      count = n;
      words = filled;
      result = Value.str (codes "0x" ++ h);
      small = fits;
      size = filled-words;
      goes_in = goes_in_bytes;
      comes_out = comes_out_bytes;
    }

    pub bytes_value_lem :
        (bytes_value.param ≡ Value.str (codes "0x" ++ h))
        × (bytes_value.result ≡ Value.str (codes "0x" ++ h))
        × (bytes_value.count ≡ n)
    unfolding bytes_value
    bytes_value_lem = (refl, refl, refl)
