-- ===== src/Coder/Items.antt =====
-- Params of src/console/jsre/deps/web3.js as items of an encoding: words, and arrays of words.
use ultron.Prelude.{
  ℕ, suc, ◌*◌, ◌≡◌, refl, ap, false, Option, some, [], ◌++◌, length, append-nil, inl,
}
use ultron.Text.{Text}
use ultron.Value.{Value}
use ultron.Abi.{
  Kind, static_part_length, is_dynamic, is_dynamic_type, require_type, nested_types,
  is_dynamic_array, is_static_array, product_from,
}
use ultron.Abi.Names.{IsClosed}
use ultron.Formatters
use ultron.Formatters.{static_param}
use ultron.Coder.{Libraries, text, depth_of, input_formatter, output_formatter}
use ultron.Coder.Encode.{encode, encode_plain, encode_with_offset}
use ultron.Coder.Decode.{decode, decode_plain}
use ultron.Coder.Layout.{Item, tail_size, cut-append}

-- The name of a type of one word, with its kind.
pub record WordType : Type 0 where
  pub name : Text
  pub kind : Kind
  pub plain : nested_types name ≡ []
  pub closed : IsClosed name
  pub fixed : is_dynamic_type kind ≡ false

module _ (lib : Libraries) where
  open lib.runtime.big_number use {Big}

  -- A value, the word that the formatters make of it, and what they make of the word.
  pub record Element (t : WordType) : Type 0 where
    pub param : Value Big
    pub word : Text
    pub result : Value Big
    pub size : length word ≡ 64
    pub goes_in : input_formatter lib t.kind param ≡ some (static_param word)
    pub comes_out : output_formatter lib t.kind (static_param word) t.name ≡ some result

  module _ (t : WordType) where
    pub name_facts :
        (is_dynamic_array t.name ≡ false)
        × (is_static_array t.name ≡ false)
        × (static_part_length t.name ≡ 32)
        × (depth_of t.name ≡ 1)
    unfolding is_dynamic_array is_static_array static_part_length product_from depth_of
    name_facts = rw (t.plain, is_dynamic_array, is_static_array) (refl, refl, refl, refl)

    pub encode_word :
        (fuel : ℕ) (e : Element t)
        → encode lib (suc fuel) t.kind t.name e.param ≡ some (text e.word)
    unfolding encode encode_plain Formatters.encode Formatters.static_part Formatters.is_dynamic
        Formatters.dynamic_part
    encode_word fuel e =
        rw (name_facts.0, name_facts.1, e.goes_in) (ap (λ s. some (text s)) (append-nil e.word))

    pub decode_word :
        (fuel : ℕ) (e : Element t) (pre post : Text) (o : ℕ)
        → length pre ≡ o * 2
        → decode lib (suc fuel) t.kind (pre ++ (e.word ++ post)) (some o) t.name ≡ some e.result
    unfolding decode decode_plain
    decode_word fuel e pre post o h =
        rw
          (
            name_facts.0,
            name_facts.1,
            name_facts.2,
            t.fixed,
            cut-append pre e.word post o 64 h e.size,
          )
          e.comes_out

    pub settled_word :
        (fuel : ℕ) (offset : Option ℕ) (w : Text)
        → encode_with_offset lib (suc fuel) t.name (text w) offset ≡ some w
    unfolding encode_with_offset
    settled_word fuel offset w = rw (name_facts.0, name_facts.1) refl

    pub still_word : is_dynamic t.kind t.name ≡ false
    unfolding is_dynamic
    still_word = rw (t.fixed, name_facts.0) refl

    -- A param of such a type.
    pub word_item : require_type t.name ≡ some t.kind → Element t → Item lib
    word_item required e = record {
      type = t.name;
      kind = t.kind;
      required = required;
      param = e.param;
      result = e.result;
      encoded = text e.word;
      encodes = rw name_facts.3 (encode_word 0 e);
      body = e.word;
      settled = λ offset. rw name_facts.3 (settled_word 0 (some offset) e.word);
      layout = inl (record {
        still = still_word;
        whole = rw name_facts.2 refl;
        fixed_size = rw name_facts.2 e.size;
        read = λ pre post o h. rw name_facts.3 (decode_word 0 e pre post o h);
      });
    }

    pub word_item_lem :
        (required : require_type t.name ≡ some t.kind) (e : Element t)
        → ((word_item required e).type ≡ t.name)
          × ((word_item required e).param ≡ e.param)
          × ((word_item required e).result ≡ e.result)
          × (tail_size lib (word_item required e) ≡ 0)
          × (static_part_length t.name ≡ 32)
    unfolding word_item
    word_item_lem required e = (refl, refl, refl, refl, name_facts.2)
