-- ===== src/Coder/RoundTrip.antt =====
-- Calls that encodeParams of src/console/jsre/deps/web3.js writes are read back by decodeParams; and
-- where the two disagree on the place of a param.
use ultron.Prelude.{◌+◌, ◌<◌, ◌≡◌, refl, ap, ◌∙◌, some, List, [], ◌∷◌, arith, length, map}
use ultron.Prelude.Int.{pos}
use ultron.Text.{Text, codes}
use ultron.BigNumber.{IsExact}
use ultron.Value.{Value, of_list}
use ultron.Abi
use ultron.Abi.{
  Kind, require_type, first_type, is_type, only_brackets, after, static_part_length, is_dynamic,
  is_dynamic_array, nested_types, scan, product_from, nested_length,
}
use ultron.Formatters.Numbers.{word_mod}
use ultron.Coder.{Libraries, words_of}
use ultron.Coder.Encode.{encode_params, head_sizes}
use ultron.Coder.Decode.{decode_params}
use ultron.Coder.Layout.{Item, types_of, params_of, results_of, bytes_of, tail_size}
use ultron.Coder.Reading.{decode_params-items, bytes_of-cons}
use ultron.Coder.Items.{Element, word_item, word_item_lem}
use ultron.Coder.Arrays.{
  params_in, results_in, open_array_item_lem, closed_array_item_lem, open_array_item,
  closed_array_item,
}
use ultron.Coder.Texts.{text_item, text_item_lem}
use ultron.Coder.Samples.{
  int_type, uint_type, bool_type, int_element, uint_element, bool_element, bytes_value,
  int_element_lem, uint_element_lem, bool_element_lem, bytes_value_lem,
}
use ultron.Coder.Params.{
  types_known, Signed, Natural, Param, int, uint, bool, bytes, ints, uints, type_of, size_of, total,
  param_of, result_of,
}

module _ (lib : Libraries) (exact : IsExact lib.runtime.big_number) where
  abbrev pub int_elements : List Signed → List (Element lib int_type)
  int_elements [] = []
  int_elements (z ∷ zs) = int_element lib exact z.integer z.signed ∷ int_elements zs

  abbrev pub uint_elements : List Natural → List (Element lib uint_type)
  uint_elements [] = []
  uint_elements (n ∷ ns) = uint_element lib exact n.number n.small ∷ uint_elements ns

  pub length-int_elements : (zs : List Signed) → length (int_elements zs) ≡ length zs
  length-int_elements [] = refl
  length-int_elements (z ∷ zs) = omega (arith, length-int_elements zs)

  pub length-uint_elements : (ns : List Natural) → length (uint_elements ns) ≡ length ns
  length-uint_elements [] = refl
  length-uint_elements (n ∷ ns) = omega (arith, length-uint_elements ns)

  unfoldable pub item_of : Param → Item lib
  item_of (int z) = word_item lib int_type types_known.0 (int_element lib exact z.integer z.signed)
  item_of (uint n) = word_item lib uint_type types_known.1 (uint_element lib exact n.number n.small)
  item_of (bool b) = word_item lib bool_type types_known.2 (bool_element lib exact b)
  item_of (bytes h n size small) =
      text_item lib (codes "bytes") Abi.dynamic_bytes (bytes_value lib exact h n size small)
        types_known.3
  item_of (ints zs few) =
      open_array_item lib int_type exact (int_elements zs) (omega (arith, length-int_elements zs))
        types_known.4
  item_of (uints d ns digits there count some_items required) =
      closed_array_item lib uint_type d (uint_elements ns) digits there
        (omega (arith, length-uint_elements ns)) (omega (arith, length-uint_elements ns)) required

  abbrev pub items_of : List Param → List (Item lib)
  items_of [] = []
  items_of (p ∷ ps) = item_of p ∷ items_of ps

  ints_params :
      (zs : List Signed)
      → params_in lib int_type (int_elements zs) ≡ map (λ z. Value.num z.integer) zs
  ints_params [] = refl
  ints_params (z ∷ zs) = rw ((int_element_lem lib exact z.integer z.signed).0, ints_params zs) refl

  uints_params :
      (ns : List Natural)
      → params_in lib uint_type (uint_elements ns) ≡ map (λ n. Value.num (pos n.number)) ns
  uints_params [] = refl
  uints_params (n ∷ ns) = rw ((uint_element_lem lib exact n.number n.small).0, uints_params ns) refl

  ints_results :
      (zs : List Signed)
      → results_in lib int_type (int_elements zs) ≡ map (λ z. Value.big (exact.of_int z.integer)) zs
  ints_results [] = refl
  ints_results (z ∷ zs) =
      rw ((int_element_lem lib exact z.integer z.signed).1, ints_results zs) refl

  uints_results :
      (ns : List Natural)
      → results_in lib uint_type (uint_elements ns)
        ≡ map (λ n. Value.big (exact.of_int (pos n.number))) ns
  uints_results [] = refl
  uints_results (n ∷ ns) =
      rw ((uint_element_lem lib exact n.number n.small).1, uints_results ns) refl

  item_of_lem :
      (p : Param)
      → ((item_of p).type ≡ type_of p)
        × ((item_of p).param ≡ param_of p)
        × ((item_of p).result ≡ result_of exact.of_int p)
        × (static_part_length (type_of p) + tail_size lib (item_of p) ≡ size_of p)
  unfolding item_of
  item_of_lem (int z) =
      let facts = int_element_lem lib exact z.integer z.signed in
      let (t, v, r, s, part) =
        word_item_lem lib int_type types_known.0 (int_element lib exact z.integer z.signed) in
      (t, v ∙ facts.0, r ∙ facts.1, omega (arith, s, part))
  item_of_lem (uint n) =
      let facts = uint_element_lem lib exact n.number n.small in
      let (t, v, r, s, part) =
        word_item_lem lib uint_type types_known.1 (uint_element lib exact n.number n.small) in
      (t, v ∙ facts.0, r ∙ facts.1, omega (arith, s, part))
  item_of_lem (bool b) =
      let facts = bool_element_lem lib exact b in
      let (t, v, r, s, part) =
        word_item_lem lib bool_type types_known.2 (bool_element lib exact b) in
      (t, v ∙ facts.0, r ∙ facts.1, omega (arith, s, part))
  item_of_lem (bytes h n size small) =
      let facts = bytes_value_lem lib exact h n size small in
      let (t, v, r, s, part) =
        text_item_lem lib (codes "bytes") Abi.dynamic_bytes (bytes_value lib exact h n size small)
          types_known.3 in
      (t, v ∙ facts.0, r ∙ facts.1, omega (arith, s, part, facts.2, ap words_of facts.2))
  item_of_lem (ints zs few) =
      let (t, v, r, s, part) =
        open_array_item_lem lib int_type exact (int_elements zs)
          (omega (arith, length-int_elements zs)) types_known.4 in
      (
        t,
        v ∙ ap (λ vs. Value.arr (of_list vs)) (ints_params zs),
        r ∙ ap (λ vs. Value.arr (of_list vs)) (ints_results zs),
        omega (arith, s, part, length-int_elements zs),
      )
  item_of_lem (uints d ns digits there count some_items required) =
      let (t, v, r, s, part) =
        closed_array_item_lem lib uint_type d (uint_elements ns) digits there
          (omega (arith, length-uint_elements ns)) (omega (arith, length-uint_elements ns))
          required in
      (
        t,
        v ∙ ap (λ vs. Value.arr (of_list vs)) (uints_params ns),
        r ∙ ap (λ vs. Value.arr (of_list vs)) (uints_results ns),
        omega (arith, s, part, length-uint_elements ns),
      )

  types-items : (ps : List Param) → types_of lib (items_of ps) ≡ map type_of ps
  types-items [] = refl
  types-items (p ∷ ps) = rw ((item_of_lem p).0, types-items ps) refl

  params-items : (ps : List Param) → params_of lib (items_of ps) ≡ map param_of ps
  params-items [] = refl
  params-items (p ∷ ps) = rw ((item_of_lem p).1, params-items ps) refl

  results-items : (ps : List Param) → results_of lib (items_of ps) ≡ map (result_of exact.of_int) ps
  results-items [] = refl
  results-items (p ∷ ps) = rw ((item_of_lem p).2, results-items ps) refl

  nothing : bytes_of lib [] ≡ 0
  unfolding bytes_of head_sizes
  nothing = refl

  bytes_of-items : (ps : List Param) → bytes_of lib (items_of ps) ≡ total ps
  bytes_of-items [] = nothing
  bytes_of-items (p ∷ ps) =
      let (t, _, _, size) = item_of_lem p in
      bytes_of-cons lib (item_of p) (items_of ps)
      ∙ omega (arith, size, ap static_part_length t, bytes_of-items ps)

  -- Params of the types int256, uint256, bool, bytes, int256[] and uint256[d], in any number and
  -- order, are encoded, and the text is decoded to the same values, integers as big numbers: given
  -- bignumber.js exact on integers, below 2 ^ 252 for the signed, and less than 2 ^ 256 bytes in all.
  pub decode_params-encode_params :
      (ps : List Param)
      → total ps < word_mod
      → (encoded : Text) × (encode_params lib (map type_of ps) (map param_of ps) ≡ some encoded)
        × (decode_params lib (map type_of ps) encoded ≡ some (map (result_of exact.of_int) ps))
  decode_params-encode_params ps h =
      let (encoded, made, read) =
        decode_params-items lib exact (items_of ps) (rw (bytes_of-items ps) h) in
      (
        encoded,
        rw (types-items ps, params-items ps) at made,
        rw (types-items ps, results-items ps) at read,
      )
