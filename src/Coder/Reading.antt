-- ===== src/Coder/Reading.antt =====
-- Params that encodeParams of src/console/jsre/deps/web3.js has laid out are found by decodeParams.
use ultron.Prelude.{
  ℕ, ◌+◌, ◌-◌, ◌*◌, ◌<◌, ◌≡◌, refl, sym, ap, ◌∙◌, some, List, [], ◌∷◌, ◌++◌, arith, length,
  length-append, append_assoc, inl, inr,
}
use ultron.Text.{Text}
use ultron.BigNumber.{IsExact}
use ultron.Abi.{static_part_length}
use ultron.Formatters.Numbers.{word_mod, padded, length-padded}
use ultron.Coder.{Libraries, depth_of}
use ultron.Coder.Encode.{encode_params, encode_multi_with_offset, head_size, head_sizes}
use ultron.Coder.Decode.{get_offsets, decode, decode_each, decode_params}
use ultron.Coder.Layout.{
  Item, Layout, types_of, params_of, results_of, kinds_of, entries_of, entry_of, head_of, tail_of,
  tail_size, heads_of, tails_of, end_of, bytes_of, entries-items, get_types-items, end_of_ge,
  heads-items, tails-items, number_at-append,
}

module _ (lib : Libraries) where
  length-tail_of : (i : Item lib) → length (tail_of lib i) ≡ tail_size lib i * 2
  length-tail_of i = by_layout i.layout
    where
      by_layout :
          (l : Layout lib i)
          → length (elim l as (λ _. Text) [ inl _ ↦ [] | inr _ ↦ i.body ])
            ≡ elim l as (λ _. ℕ) [ inl _ ↦ 0 | inr m ↦ m.half ] * 2
      by_layout (inl f) = refl
      by_layout (inr m) = m.moving_size

  length-head_of :
      (offset : ℕ) (i : Item lib)
      → offset < word_mod
      → length (head_of lib offset i) ≡ static_part_length i.type * 2
  length-head_of offset i h = by_layout i.layout
    where
      by_layout :
          (l : Layout lib i)
          → length (elim l as (λ _. Text) [ inl _ ↦ i.body | inr _ ↦ padded offset ])
            ≡ static_part_length i.type * 2
      by_layout (inl f) = f.fixed_size
      by_layout (inr m) = omega (arith, length-padded offset h, m.one_word)

  -- A param is read at its place, wherever its offset points.
  read_item :
      (i : Item lib) (bytes pre mid post : Text) (o offset : ℕ)
      → bytes ≡ pre ++ (head_of lib offset i ++ (mid ++ (tail_of lib i ++ post)))
      → length pre ≡ o * 2
      → length pre + length (head_of lib offset i) + length mid ≡ offset * 2
      → offset < word_mod
      → decode lib (depth_of i.type) i.kind bytes (some o) i.type ≡ some i.result
  read_item i bytes pre mid post o offset e h k low = by_layout i.layout e k
    where
      by_layout :
          (l : Layout lib i)
          → bytes
            ≡ pre
              ++ (elim l as (λ _. Text) [ inl _ ↦ i.body | inr _ ↦ padded offset ]
                  ++ (mid ++ (elim l as (λ _. Text) [ inl _ ↦ [] | inr _ ↦ i.body ] ++ post)))
          → length pre
              + length (elim l as (λ _. Text) [ inl _ ↦ i.body | inr _ ↦ padded offset ])
              + length mid
            ≡ offset * 2
          → decode lib (depth_of i.type) i.kind bytes (some o) i.type ≡ some i.result
      by_layout (inl f) e' k' = rw e' (f.read pre (mid ++ post) o h)
      by_layout (inr m) e' k' =
          m.read bytes (pre ++ (padded offset ++ mid)) post o offset (e' ∙ simp append_assoc)
            (omega
              (arith, length-append pre (padded offset ++ mid), length-append (padded offset) mid))
            (rw e' (number_at-append pre (mid ++ (i.body ++ post)) o offset h low))

  own_start : (o n : ℕ) → o + n - n ≡ o
  own_start o n = omega arith

  decode_each-items :
      (is : List (Item lib)) (bytes pre mid : Text) (o offset : ℕ)
      → bytes ≡ pre ++ (heads_of lib offset is ++ (mid ++ tails_of lib is))
      → length pre ≡ o * 2
      → length pre + length (heads_of lib offset is) + length mid ≡ offset * 2
      → end_of lib offset is < word_mod
      → decode_each lib bytes (types_of lib is) (kinds_of lib is) (get_offsets o (types_of lib is))
        ≡ some (results_of lib is)
  unfolding decode_each get_offsets
  decode_each-items [] bytes pre mid o offset e h k low = refl
  decode_each-items (i ∷ is) bytes pre mid o offset e h k low =
      let below : offset < word_mod = omega (arith, end_of_ge lib (offset + tail_size lib i) is) in
      let head = head_of lib offset i in
      let heads = heads_of lib (offset + tail_size lib i) is in
      let tail = tail_of lib i in
      let whole = length-append head heads in
      rw
        (
          own_start o (static_part_length i.type),
          read_item i bytes pre (heads ++ mid) (tails_of lib is) o offset (e ∙ simp append_assoc) h
              (omega (arith, whole, length-append heads mid)) below,
          decode_each-items is bytes (pre ++ head) (mid ++ tail) (o + static_part_length i.type)
              (offset + tail_size lib i) (e ∙ simp append_assoc)
              (omega (arith, length-append pre head, length-head_of offset i below))
              (omega
                (arith, whole, length-append pre head, length-append mid tail, length-tail_of i))
              low,
        )
        refl

  head_size-item : (i : Item lib) → head_size (entry_of lib i) ≡ static_part_length i.type
  unfolding head_size
  head_size-item i = by_layout i.layout
    where
      by_layout : Layout lib i → head_size (entry_of lib i) ≡ static_part_length i.type
      by_layout (inl f) = rw f.still f.whole
      by_layout (inr m) = rw m.moves (sym m.one_word)

  length-heads_of :
      (offset : ℕ) (is : List (Item lib))
      → end_of lib offset is < word_mod
      → length (heads_of lib offset is) ≡ head_sizes (entries_of lib is) * 2
  unfolding head_sizes
  length-heads_of offset [] h = refl
  length-heads_of offset (i ∷ is) h =
      let below : offset < word_mod = omega (arith, end_of_ge lib (offset + tail_size lib i) is) in
      omega (
        arith,
        length-append (head_of lib offset i) (heads_of lib (offset + tail_size lib i) is),
        length-head_of offset i below,
        head_size-item i,
        length-heads_of (offset + tail_size lib i) is h,
      )

  -- Params that items describe are encoded, and decoded to their results, if the encoding is shorter
  -- than 2 ^ 256 bytes.
  pub decode_params-items :
      IsExact lib.runtime.big_number
      → (is : List (Item lib)) → bytes_of lib is < word_mod
      → (bytes : Text) × (encode_params lib (types_of lib is) (params_of lib is) ≡ some bytes)
        × (decode_params lib (types_of lib is) bytes ≡ some (results_of lib is))
  unfolding encode_params encode_multi_with_offset decode_params bytes_of
  decode_params-items exact is h =
      let size = head_sizes (entries_of lib is) in
      let bytes = heads_of lib size is ++ tails_of lib is in
      (
        bytes,
        rw
            (
              entries-items lib is,
              heads-items lib exact size is h,
              tails-items lib (end_of lib size is) is,
            )
            refl,
        rw (get_types-items lib is) (
            decode_each-items is bytes [] [] 0 size refl (omega arith)
              (omega (arith, length-heads_of size is h)) h),
      )

  end_of-add :
      (offset n : ℕ) (is : List (Item lib)) → end_of lib (offset + n) is ≡ end_of lib offset is + n
  end_of-add offset n [] = refl
  end_of-add offset n (i ∷ is) =
      ap (λ (m : ℕ). end_of lib m is) (omega arith) ∙ end_of-add (offset + tail_size lib i) n is

  -- The bytes of an encoding, param by param.
  pub bytes_of-cons :
      (i : Item lib) (is : List (Item lib))
      → bytes_of lib (i ∷ is) ≡ static_part_length i.type + tail_size lib i + bytes_of lib is
  unfolding bytes_of head_sizes
  bytes_of-cons i is =
      ap (λ (m : ℕ). end_of lib m is) (omega arith)
      ∙ end_of-add (head_sizes (entries_of lib is)) (head_size (entry_of lib i) + tail_size lib i)
          is
      ∙ omega (arith, head_size-item i)
