-- ===== src/Coder/Disagreement.antt =====
-- Where decodeParams of src/console/jsre/deps/web3.js does not look for what encodeParams has written.
use ultron.Prelude.{
  ℕ, ◌+◌, ◌/◌, ◌*◌, ◌≡◌, ◌≢◌, refl, sym, ap, ◌∙◌, some, List, length, append_assoc, append-nil,
  Option-cases, inl, inr, true, [], ◌∷◌, ◌++◌, arith, ◌<◌,
}
use ultron.Text.{Text, all, is_digit}
use ultron.Text.Radix.{value, value_from}
use ultron.Abi.{Kind, static_part_length, is_dynamic, product_from}
use ultron.Abi.Names.{suffix, array_name, IsClosed-suffix}
use ultron.BigNumber.{IsExact}
use ultron.Formatters.Numbers.{padded, length-padded, word-number}
use ultron.Coder.{Libraries, Encoded, text, depth_of}
use ultron.Coder.Encode.{
  Entry, head_size, head_sizes, heads, tails, encode_with_offset, encode_multi_with_offset,
}
use ultron.Coder.Decode.{get_offsets, cut}
use ultron.Coder.Layout.{cut-append}
use ultron.Coder.Items.{WordType, name_facts, settled_word, still_word}
use ultron.Prelude.Int.{pos}

module _ (t : WordType) (d : Text) (digits : all is_digit d ≡ true)
    (some_items : 0 < value 10 d) where
  -- T[d][]
  abbrev pub rows : Text
  rows = (t.name ++ suffix d) ++ suffix []

  empty_value : value 10 [] ≡ 0
  unfolding value value_from
  empty_value = refl

  word_part : static_part_length t.name ≡ 32
  unfolding static_part_length product_from
  word_part = rw t.plain refl

  rows_part : static_part_length rows ≡ 32 * value 10 d
  rows_part =
      let inner = (array_name t.name d t.closed digits).4 in
      let outer =
        (array_name (t.name ++ suffix d) [] (IsClosed-suffix t.name d t.closed digits) refl).4 in
      ground (arith, inner, outer, word_part, empty_value)

  rows_offsets : get_offsets 0 (rows ∷ t.name ∷ []) ≡ 0 ∷ (32 * value 10 d) ∷ []
  unfolding get_offsets
  rows_offsets = rw (rows_part, word_part) (ground arith)

  rows-is_dynamic : (k : Kind) → is_dynamic k rows ≡ true
  unfolding is_dynamic
  rows-is_dynamic k =
      let moves =
        (array_name (t.name ++ suffix d) [] (IsClosed-suffix t.name d t.closed digits) refl).1 in
      ground (arith, moves)

  -- An array, and a param of one word behind it.
  abbrev pub entries_of : Kind → Encoded → Text → List Entry
  entries_of k e w =
      record { type = rows; kind = k; encoded = e }
      ∷ record { type = t.name; kind = t.kind; encoded = text w }
      ∷ []

  module _ (lib : Libraries) (exact : IsExact lib.runtime.big_number) where
    entries-head_sizes : (k : Kind) (e : Encoded) (w : Text) → head_sizes (entries_of k e w) ≡ 64
    unfolding head_sizes head_size
    entries-head_sizes k e w = rw (rows-is_dynamic k, still_word lib t, word_part) refl

    word_at :
        (w : Text) (offset : ℕ)
        → encode_with_offset lib (depth_of t.name) t.name (text w) (some offset) ≡ some w
    word_at w offset = rw ((name_facts lib t).3) (settled_word lib t 0 (some offset) w)

    heads-rows :
        (k : Kind) (e : Encoded) (w h : Text) (end : ℕ)
        → heads lib 64 (entries_of k e w) ≡ some (h, end)
        → h ≡ padded 64 ++ (w ++ [])
    unfolding heads
    heads-rows k e w h end made =
        elim (Option-cases (encode_with_offset lib (depth_of rows) rows e (some 64))) [
          | inl n ↦ absurd (cc (rw (n, heads) at made))
          | inr (s, p) ↦
              let known : heads lib 64 (entries_of k e w)
                  ≡ some (padded 64 ++ (w ++ []), 64 + length s / 2) =
                rw
                  (
                    heads,
                    p,
                    rows-is_dynamic k,
                    word-number lib.runtime.big_number exact (pos 64) (omega arith),
                    word_at w (64 + length s / 2),
                    still_word lib t,
                  )
                  refl in
              cc
        ]

    -- An array of arrays of d > 1 items, and a param of one word behind it: what encodeParams writes
    -- of their encodings has the word of the param at byte 32, behind the offset of the array; but
    -- decodeParams looks for the param at byte 32 * d, as if the array stood there itself.
    pub get_offsets-rows :
        (k : Kind) (e : Encoded) (w out : Text)
        → 1 < value 10 d
        → length w ≡ 64
        → encode_multi_with_offset lib (head_sizes (entries_of k e w)) (entries_of k e w) ≡ some out
        → (cut out (some 32) 64 ≡ w)
          × (get_offsets 0 (rows ∷ t.name ∷ []) ≡ 0 ∷ (32 * value 10 d) ∷ [])
          × (32 * value 10 d ≢ 32)
    unfolding encode_multi_with_offset
    get_offsets-rows k e w out many size made =
        let started : encode_multi_with_offset lib 64 (entries_of k e w) ≡ some out =
          rw (entries-head_sizes k e w) at made in
        elim (Option-cases (heads lib 64 (entries_of k e w))) [
          | inl n ↦ absurd (cc (rw n at started))
          | inr ((h, end), p) ↦ elim (Option-cases (tails lib end (entries_of k e w))) [
            | inl n ↦ absurd (cc (rw (p, n) at started))
            | inr (r, q) ↦
                let whole : h ++ r ≡ out = cc (rw (encode_multi_with_offset, p, q) at started) in
                let joined : padded 64 ++ (w ++ r) ≡ out =
                  ap (λ v. padded 64 ++ (v ++ r)) (sym (append-nil w))
                  ∙ sym (append_assoc (padded 64) (w ++ []) r)
                  ∙ ap (λ v. v ++ r) (sym (heads-rows k e w h end p))
                  ∙ whole in
                (
                  rw (← joined)
                      (cut-append (padded 64) w r 32 64 (length-padded 64 (omega arith)) size),
                  rows_offsets,
                  omega arith,
                )
          ]
        ]
