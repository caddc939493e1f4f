-- ===== src/Coder/Arrays.antt =====
-- Arrays of words among the params of src/console/jsre/deps/web3.js.
use ultron.Prelude.{
  ℕ, suc, ◌+◌, ◌*◌, ◌<◌, ◌≡◌, refl, ap, ◌∙◌, true, false, Option, none, some, List, [], ◌∷◌, ◌++◌,
  arith, length, length-append, append_assoc, inl, inr, get_elem?, if◌then◌else◌,
}
use mathlib.Core.Option
use ultron.Prelude.Int.{pos}
use ultron.Text.{Text, all, is_digit}
use ultron.Text.Radix.{value, value_from}
use ultron.BigNumber.{IsExact}
use ultron.Value.{Value, arr, items, of_list}
use ultron.Abi.{
  Kind, static_part_length, is_dynamic, require_type, nested_name, is_dynamic_array,
  is_static_array, static_array_length,
}
use ultron.Abi.Names.{suffix, array_name, nested_types-suffix, is_nil}
use ultron.Formatters.Numbers.{word_mod, padded, length-padded, word-number}
use ultron.Coder.{Libraries, Encoded, Encodeds, text, list, empty, next, depth_of, rounded, add_to}
use ultron.Coder.Encode.{
  encode, encode_each, encode_dynamic, encode_items, encode_with_offset, encode_rest, item_at,
  dynamic_with_offset, static_with_offset, text_of, nested_offsets_of,
}
use ultron.Coder.Decode.{decode, decode_items, number_at, rounds, decode_plain}
use ultron.Coder.Layout.{Item, tail_size, number_at-append}
use ultron.Coder.Items.{WordType, Element, name_facts, encode_word, decode_word, settled_word}

module _ (lib : Libraries) (t : WordType) where
  open lib.runtime.big_number use {Big}

  abbrev pub params_in : List (Element lib t) → List (Value Big)
  params_in [] = []
  params_in (e ∷ es) = e.param ∷ params_in es

  abbrev pub results_in : List (Element lib t) → List (Value Big)
  results_in [] = []
  results_in (e ∷ es) = e.result ∷ results_in es

  abbrev pub words_in : List (Element lib t) → Text
  words_in [] = []
  words_in (e ∷ es) = e.word ++ words_in es

  abbrev encodeds_in : List (Element lib t) → Encodeds
  encodeds_in [] = empty
  encodeds_in (e ∷ es) = next (text e.word) (encodeds_in es)

  items-of_list : (vs : List (Value Big)) → items (of_list vs) ≡ vs
  items-of_list [] = refl
  items-of_list (v ∷ vs) = ap (λ ws. v ∷ ws) (items-of_list vs)

  length-params_in : (es : List (Element lib t)) → length (params_in es) ≡ length es
  length-params_in [] = refl
  length-params_in (e ∷ es) = ap suc (length-params_in es)

  length-words_in : (es : List (Element lib t)) → length (words_in es) ≡ length es * 64
  length-words_in [] = refl
  length-words_in (e ∷ es) =
      omega (arith, length-append e.word (words_in es), e.size, length-words_in es)

  -- One step of the recursions, with the calls that it makes left as they are.
  encode_with_offset-step :
      (type : Text) (e : Encoded) (offset : Option ℕ)
      → encode_with_offset lib 2 type e offset ≡ (
          let item = λ (e' : Encoded). encode_with_offset lib 1 (nested_name type) e' none in
          if is_dynamic_array type
          then dynamic_with_offset lib item offset (nested_name type) e
          else if is_static_array type
          then static_with_offset lib item offset (nested_name type) e
          else text_of lib e)
  unfolding encode_with_offset
  encode_with_offset-step type e offset = refl

  decode-step :
      (k : Kind) (bytes : Text) (offset : Option ℕ) (name : Text)
      → decode lib 2 k bytes offset name ≡ (
          let item = λ (start : Option ℕ). decode lib 1 k bytes start (nested_name name) in
          let step = rounded (static_part_length (nested_name name)) in
          let array_offset = number_at bytes offset in
          if is_dynamic_array name
          then Option.map arr (
              decode_items lib item
                (rounds (number_at bytes array_offset))
                (add_to array_offset 32)
                step)
          else if is_static_array name
          then Option.map arr (decode_items lib item (static_array_length name) offset step)
          else decode_plain lib k bytes offset name)
  unfolding decode
  decode-step k bytes offset name = refl

  encode_each-words :
      (es : List (Element lib t))
      → encode_each lib (encode lib 1 t.kind t.name) (params_in es) ≡ some (encodeds_in es)
  unfolding encode_each
  encode_each-words [] = refl
  encode_each-words (e ∷ es) = rw (encode_word lib t 0 e, encode_each-words es) refl

  encode_rest-words :
      (es : List (Element lib t))
      → encode_rest lib (λ (e : Encoded). encode_with_offset lib 1 t.name e none) (encodeds_in es)
        ≡ some (words_in es)
  encode_rest-words [] = refl
  encode_rest-words (e ∷ es) = rw (settled_word lib t 0 none e.word, encode_rest-words es) refl

  decode_items-words :
      (es : List (Element lib t)) (bytes pre post : Text) (o : ℕ)
      → bytes ≡ pre ++ (words_in es ++ post)
      → length pre ≡ o * 2
      → decode_items lib
          (λ (start : Option ℕ). decode lib 1 t.kind bytes start t.name)
          (length es)
          (some o)
          32
        ≡ some (of_list (results_in es))
  unfolding decode_items
  decode_items-words [] bytes pre post o e h = refl
  decode_items-words (w ∷ es) bytes pre post o e h =
      let place : bytes ≡ pre ++ (w.word ++ (words_in es ++ post)) = e ∙ simp append_assoc in
      rw
        (
          ap (λ b. decode lib 1 t.kind b (some o) t.name) place
              ∙ decode_word lib t 0 w pre (words_in es ++ post) o h,
          decode_items-words es bytes (pre ++ w.word) post (o + 32) (place ∙ simp append_assoc)
              (omega (arith, length-append pre w.word, w.size)),
        )
        refl

  module _ (exact : IsExact lib.runtime.big_number) (es : List (Element lib t))
      (few : length es < word_mod) where
    -- T[]: the number of items, and the items.
    abbrev open_name : Text
    open_name = t.name ++ suffix []

    open_depth : depth_of open_name ≡ 2
    unfolding depth_of
    open_depth = rw (nested_types-suffix t.name [] t.closed refl, t.plain) refl

    open_part : static_part_length open_name ≡ 32
    unfolding value value_from
    open_part = (array_name t.name [] t.closed refl).4 ∙ rw (name_facts lib t).2 refl

    abbrev open_body : Text
    open_body = padded (length es) ++ words_in es

    open_encodes :
        encode lib 2 t.kind open_name (arr (of_list (params_in es)))
        ≡ some (list (next (text (padded (length es))) (encodeds_in es)))
    unfolding encode encode_dynamic
    open_encodes =
        let (nested, dynamic, _, _, _) = array_name t.name [] t.closed refl in
        rw
          (
            dynamic,
            nested,
            items-of_list (params_in es),
            length-params_in es,
            word-number lib.runtime.big_number exact (pos (length es)) few,
            encode_each-words es,
          )
          refl

    open_settled :
        (offset : ℕ)
        → encode_with_offset lib 2 open_name
            (list (next (text (padded (length es))) (encodeds_in es)))
            (some offset)
          ≡ some open_body
    unfolding nested_offsets_of
    open_settled offset =
        let (nested, dynamic, _, _, _) = array_name t.name [] t.closed refl in
        rw (encode_with_offset-step, dynamic, nested, (name_facts lib t).0, encode_rest-words es)
          refl

    open_read :
        (bytes pre post : Text) (o p : ℕ)
        → bytes ≡ pre ++ (open_body ++ post)
        → length pre ≡ p * 2
        → number_at bytes (some o) ≡ some p
        → decode lib 2 t.kind bytes (some o) open_name ≡ some (arr (of_list (results_in es)))
    open_read bytes pre post o p e h found =
        let (nested, dynamic, _, _, _) = array_name t.name [] t.closed refl in
        let n = length es in
        let place : bytes ≡ pre ++ (padded n ++ (words_in es ++ post)) = e ∙ simp append_assoc in
        let counted : number_at bytes (some p) ≡ some n =
          ap (λ b. number_at b (some p)) place
          ∙ number_at-append pre (words_in es ++ post) p n h few in
        rw
          (
            decode-step,
            dynamic,
            nested,
            found,
            counted,
            (name_facts lib t).2,
            decode_items-words es bytes (pre ++ padded n) post (p + 32) (place ∙ simp append_assoc)
                (omega (arith, length-append pre (padded n), length-padded n few, h)),
          )
          refl

    open_moves : is_dynamic t.kind open_name ≡ true
    unfolding is_dynamic
    open_moves = rw (t.fixed, (array_name t.name [] t.closed refl).1) refl

    pub open_array_item : require_type open_name ≡ some t.kind → Item lib
    open_array_item required = record {
      type = open_name;
      kind = t.kind;
      required = required;
      param = arr (of_list (params_in es));
      result = arr (of_list (results_in es));
      encoded = list (next (text (padded (length es))) (encodeds_in es));
      encodes = rw open_depth open_encodes;
      body = open_body;
      settled = λ offset. rw open_depth (open_settled offset);
      layout = inr (record {
        moves = open_moves;
        one_word = open_part;
        half = 32 + length es * 32;
        moving_size = omega (
          arith,
          length-append (padded (length es)) (words_in es),
          length-padded (length es) few,
          length-words_in es,
        );
        read =
            λ bytes pre post o p e h found. rw open_depth (open_read bytes pre post o p e h found);
      });
    }

    pub open_array_item_lem :
        (required : require_type open_name ≡ some t.kind)
        → ((open_array_item required).type ≡ open_name)
          × ((open_array_item required).param ≡ arr (of_list (params_in es)))
          × ((open_array_item required).result ≡ arr (of_list (results_in es)))
          × (tail_size lib (open_array_item required) ≡ 32 + length es * 32)
          × (static_part_length open_name ≡ 32)
    unfolding open_array_item
    open_array_item_lem required = (refl, refl, refl, refl, open_part)

  -- The item behind `before` others.
  nth :
      (before : List (Value Big)) (v : Value Big) (after : List (Value Big))
      → get_elem? (before ++ v ∷ after) (length before) ≡ some v
  nth [] v after = refl
  nth (w ∷ before) v after = nth before v after

  item_at-nth :
      (before : List (Value Big)) (v : Value Big) (after : List (Value Big))
      → item_at lib (arr (of_list (before ++ v ∷ after))) (length before) ≡ some v
  unfolding item_at
  item_at-nth before v after =
      rw (item_at, items-of_list (before ++ v ∷ after), nth before v after) refl

  encode_items-words :
      (es : List (Element lib t)) (before : List (Value Big))
      → encode_items lib
          (encode lib 1 t.kind t.name)
          (length es)
          (length before)
          (arr (of_list (before ++ params_in es)))
        ≡ some (encodeds_in es)
  unfolding encode_items
  encode_items-words [] before = refl
  encode_items-words (e ∷ es) before =
      let shifted : (before ++ e.param ∷ []) ++ params_in es ≡ before ++ e.param ∷ params_in es =
        append_assoc before (e.param ∷ []) (params_in es) in
      let behind : length (before ++ e.param ∷ []) ≡ suc (length before) =
        omega (arith, length-append before (e.param ∷ [])) in
      let rest = rw (shifted, behind) at (encode_items-words es (before ++ e.param ∷ [])) in
      rw (item_at-nth before e.param (params_in es), encode_word lib t 0 e, rest) refl

  module _ (d : Text) (es : List (Element lib t)) (digits : all is_digit d ≡ true)
      (there : is_nil d ≡ false) (count : value 10 d ≡ length es) (some_items : 0 < length es) where
    -- T[n]: the items alone.
    abbrev closed_name : Text
    closed_name = t.name ++ suffix d

    closed_depth : depth_of closed_name ≡ 2
    unfolding depth_of
    closed_depth = rw (nested_types-suffix t.name d t.closed digits, t.plain) refl

    closed_facts :
        (nested_name closed_name ≡ t.name)
        × (is_dynamic_array closed_name ≡ false)
        × (is_static_array closed_name ≡ true)
        × (static_array_length closed_name ≡ length es)
        × (static_part_length closed_name ≡ 32 * length es)
    closed_facts =
        let (nested, dynamic, static, size, part) = array_name t.name d t.closed digits in
        (
          nested,
          dynamic ∙ there,
          static ∙ rw there refl,
          size ∙ rw there count,
          part ∙ rw ((name_facts lib t).2, count) (ground arith),
        )

    closed_encodes :
        encode lib 2 t.kind closed_name (arr (of_list (params_in es)))
        ≡ some (list (encodeds_in es))
    unfolding encode
    closed_encodes =
        let (nested, dynamic, static, size, part) = closed_facts in
        rw (dynamic, static, nested, size, encode_items-words es []) refl

    closed_settled :
        (offset : ℕ)
        → encode_with_offset lib 2 closed_name (list (encodeds_in es)) (some offset)
          ≡ some (words_in es)
    unfolding nested_offsets_of
    closed_settled offset =
        let (nested, dynamic, static, size, part) = closed_facts in
        rw
          (
            encode_with_offset-step,
            dynamic,
            static,
            nested,
            (name_facts lib t).0,
            encode_rest-words es,
          )
          refl

    closed_read :
        (pre post : Text) (o : ℕ)
        → length pre ≡ o * 2
        → decode lib 2 t.kind (pre ++ (words_in es ++ post)) (some o) closed_name
          ≡ some (arr (of_list (results_in es)))
    closed_read pre post o h =
        let (nested, dynamic, static, size, part) = closed_facts in
        rw
          (
            decode-step,
            dynamic,
            static,
            nested,
            size,
            (name_facts lib t).2,
            decode_items-words es (pre ++ (words_in es ++ post)) pre post o refl h,
          )
          refl

    closed_still : is_dynamic t.kind closed_name ≡ false
    unfolding is_dynamic
    closed_still = rw (t.fixed, closed_facts.1) refl

    pub closed_array_item : require_type closed_name ≡ some t.kind → Item lib
    closed_array_item required = record {
      type = closed_name;
      kind = t.kind;
      required = required;
      param = arr (of_list (params_in es));
      result = arr (of_list (results_in es));
      encoded = list (encodeds_in es);
      encodes = rw closed_depth closed_encodes;
      body = words_in es;
      settled = λ offset. rw closed_depth (closed_settled offset);
      layout = inl (record {
        still = closed_still;
        whole = omega (arith, closed_facts.4);
        fixed_size = omega (arith, closed_facts.4, length-words_in es);
        read = λ pre post o h. rw closed_depth (closed_read pre post o h);
      });
    }

    pub closed_array_item_lem :
        (required : require_type closed_name ≡ some t.kind)
        → ((closed_array_item required).type ≡ closed_name)
          × ((closed_array_item required).param ≡ arr (of_list (params_in es)))
          × ((closed_array_item required).result ≡ arr (of_list (results_in es)))
          × (tail_size lib (closed_array_item required) ≡ 0)
          × (static_part_length closed_name ≡ 32 * length es)
    unfolding closed_array_item
    closed_array_item_lem required = (refl, refl, refl, refl, closed_facts.4)
