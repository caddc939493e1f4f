-- ===== src/Coder/Texts.antt =====
-- Params of dynamic types, string and bytes, in src/console/jsre/deps/web3.js.
use ultron.Prelude.{
  ℕ, ◌+◌, ◌*◌, ◌<◌, ◌≡◌, refl, ap, ◌∙◌, true, false, some, [], ◌++◌, arith, length, length-append,
  append-nil, append_assoc, inr,
}
use ultron.Text.{Text}
use ultron.Value.{Value}
use ultron.Abi.{
  Kind, static_part_length, is_dynamic, is_dynamic_type, require_type, nested_types,
  is_dynamic_array, is_static_array, product_from,
}
use ultron.Formatters
use ultron.Formatters.{static_param}
use ultron.Formatters.Numbers.{word_mod, padded, length-padded}
use ultron.Coder.{Libraries, text, depth_of, input_formatter, output_formatter, words_of}
use ultron.Coder.Encode.{encode, encode_plain, encode_with_offset}
use ultron.Coder.Decode.{decode, decode_plain, decode_dynamic_type, number_at}
use ultron.Coder.Layout.{Item, tail_size, cut-append, number_at-append}

module _ (lib : Libraries) where
  open lib.runtime.big_number use {Big}

  -- A value, the number of its bytes, the words of them, and what the formatters make of it all.
  pub record DynamicValue (name : Text) (kind : Kind) : Type 0 where
    pub plain : nested_types name ≡ []
    pub dynamic : is_dynamic_type kind ≡ true
    pub param : Value Big
    pub count : ℕ
    pub words : Text
    pub result : Value Big
    pub small : count < word_mod
    pub size : length words ≡ words_of count * 64
    pub goes_in : input_formatter lib kind param ≡ some (static_param (padded count ++ words))
    pub comes_out :
        output_formatter lib kind (record { value = padded count ++ words; offset = some 0 }) name
        ≡ some result

  module _ (name : Text) (kind : Kind) (v : DynamicValue name kind) where
    facts :
        (is_dynamic_array name ≡ false)
        × (is_static_array name ≡ false)
        × (static_part_length name ≡ 32)
        × (depth_of name ≡ 1)
        × (is_dynamic kind name ≡ true)
    unfolding is_dynamic_array is_static_array static_part_length product_from depth_of is_dynamic
    facts =
        rw (v.plain, v.dynamic, is_dynamic_array, is_static_array) (refl, refl, refl, refl, refl)

    body : Text
    body = padded v.count ++ v.words

    encodes_text : encode lib 1 kind name v.param ≡ some (text body)
    unfolding body encode encode_plain Formatters.encode Formatters.static_part
        Formatters.is_dynamic Formatters.dynamic_part
    encodes_text = rw (facts.0, facts.1, v.goes_in) (ap (λ s. some (text s)) (append-nil _))

    settled_text :
        (offset : ℕ) → encode_with_offset lib 1 name (text body) (some offset) ≡ some body
    unfolding encode_with_offset
    settled_text offset = rw (facts.0, facts.1) refl

    length-body : length body ≡ (1 + words_of v.count) * 64
    unfolding body
    length-body =
        omega (arith, length-append (padded v.count) v.words, length-padded v.count v.small, v.size)

    decodes_text :
        (bytes pre post : Text) (o p : ℕ)
        → bytes ≡ pre ++ (body ++ post)
        → length pre ≡ p * 2
        → number_at bytes (some o) ≡ some p
        → decode lib 1 kind bytes (some o) name ≡ some v.result
    unfolding decode decode_plain decode_dynamic_type body
    decodes_text bytes pre post o p e h found =
        let counted : number_at bytes (some p) ≡ some v.count =
          ap (λ b. number_at b (some p)) (e ∙ simp append_assoc)
          ∙ number_at-append pre (v.words ++ post) p v.count h v.small in
        let whole = cut-append pre body post p ((1 + words_of v.count) * 64) h length-body in
        rw (facts.0, facts.1, v.dynamic, found, counted, e, whole) v.comes_out

    pub text_item : require_type name ≡ some kind → Item lib
    text_item required = record {
      type = name;
      kind = kind;
      required = required;
      param = v.param;
      result = v.result;
      encoded = text body;
      encodes = rw facts.3 encodes_text;
      body = body;
      settled = λ offset. rw facts.3 (settled_text offset);
      layout = inr (record {
        moves = facts.4;
        one_word = facts.2;
        half = (1 + words_of v.count) * 32;
        moving_size = omega (arith, length-body);
        read =
            λ bytes pre post o p e h found. rw facts.3 (decodes_text bytes pre post o p e h found);
      });
    }

    pub text_item_lem :
        (required : require_type name ≡ some kind)
        → ((text_item required).type ≡ name)
          × ((text_item required).param ≡ v.param)
          × ((text_item required).result ≡ v.result)
          × (tail_size lib (text_item required) ≡ (1 + words_of v.count) * 32)
          × (static_part_length name ≡ 32)
    unfolding text_item
    text_item_lem required = (refl, refl, refl, refl, facts.2)
