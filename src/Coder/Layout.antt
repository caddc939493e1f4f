-- ===== src/Coder/Layout.antt =====
-- How encodeParams and decodeParams of src/console/jsre/deps/web3.js lay params out: a static part with
-- the params of a fixed size and the offsets of the others, and those others behind it.
use ultron.Prelude.{
  ℕ, ◌+◌, ◌*◌, ◌≤◌, ◌<◌, ◌≡◌, refl, ap, ◌∙◌, true, false, some, List, [], ◌∷◌, ◌++◌, arith, length,
  ◌⊎◌, inl, inr,
}
use ultron.Text.{Text, all}
use ultron.Text.Slices.{take-append_self, drop-append_self}
use ultron.Text.Radix.{is_digit_of, value}
use ultron.BigNumber.{IsExact}
use ultron.Prelude.Int.{pos}
use ultron.Value.{Value}
use ultron.Abi.{Kind, static_part_length, is_dynamic, require_type}
use ultron.Formatters.Numbers.{
  word_mod, padded, length-padded, padded-all, padded-value, word-number,
}
use ultron.Coder.{Libraries, Encoded, read_number, hex_prefix, number_or_nan, rounded, depth_of}
use ultron.Coder.Encode.{
  Entry, head_sizes, encode, encode_with_offset, heads, tails, head_text, tail_text, behind,
  entries,
}
use ultron.Coder.Decode.{cut, number_at, decode, get_types}

hex_prefix-all : (s : Text) → all (is_digit_of 16) s ≡ true → hex_prefix s ≡ s
hex_prefix-all [] h = refl
hex_prefix-all (c ∷ s) h = ground (arith, hex_prefix-all s)

number_or_nan-value : (s : Text) → 0 < length s → number_or_nan s ≡ some (value 16 s)
unfolding number_or_nan
number_or_nan-value [] h = absurd (omega arith)
number_or_nan-value (c ∷ s) h = refl

pub read_number-padded : (n : ℕ) → n < word_mod → read_number (padded n) ≡ some n
unfolding read_number
read_number-padded n h =
    rw (hex_prefix-all (padded n) (padded-all n))
      (number_or_nan-value (padded n) (omega (arith, length-padded n h)) ∙ ap some (padded-value n))

pub cut-append :
    (pre w post : Text) (o n : ℕ)
    → length pre ≡ o * 2
    → length w ≡ n
    → cut (pre ++ (w ++ post)) (some o) n ≡ w
cut-append pre w post o n h k =
    rw (← h, ← k, drop-append_self pre (w ++ post)) (take-append_self w post)

pub number_at-append :
    (pre post : Text) (o n : ℕ)
    → length pre ≡ o * 2
    → n < word_mod
    → number_at (pre ++ (padded n ++ post)) (some o) ≡ some n
unfolding number_at
number_at-append pre post o n h k =
    ap read_number (cut-append pre (padded n) post o 64 h (length-padded n k))
    ∙ read_number-padded n k

module _ (lib : Libraries) where
  open lib.runtime.big_number use {Big}

  module _ (type : Text) (kind : Kind) (body : Text) (result : Value Big) where
    -- A param of a fixed size is read where it stands.
    pub record IsFixed : Type 0 where
      pub still : is_dynamic kind type ≡ false
      pub whole : rounded (static_part_length type) ≡ static_part_length type
      pub fixed_size : length body ≡ static_part_length type * 2
      pub read :
          (pre post : Text) (o : ℕ)
          → length pre ≡ o * 2
          → decode lib (depth_of type) kind (pre ++ (body ++ post)) (some o) type ≡ some result

    -- Any other is read where its offset points.
    pub record IsMoving : Type 0 where
      pub moves : is_dynamic kind type ≡ true
      pub one_word : static_part_length type ≡ 32
      pub half : ℕ
      pub moving_size : length body ≡ half * 2
      pub read :
          (bytes pre post : Text) (o p : ℕ)
          → bytes ≡ pre ++ (body ++ post)
          → length pre ≡ p * 2
          → number_at bytes (some o) ≡ some p
          → decode lib (depth_of type) kind bytes (some o) type ≡ some result

  -- A param with its encoding, and with what it is decoded to wherever it stands.
  pub record Item : Type 0 where
    pub type : Text
    pub kind : Kind
    pub required : require_type type ≡ some kind
    pub param : Value Big
    pub result : Value Big
    pub encoded : Encoded
    pub encodes : encode lib (depth_of type) kind type param ≡ some encoded
    pub body : Text
    pub settled :
        (offset : ℕ) → encode_with_offset lib (depth_of type) type encoded (some offset) ≡ some body
    pub layout : IsFixed type kind body result ⊎ IsMoving type kind body result

  abbrev pub Layout : Item → Type 0
  Layout i = IsFixed i.type i.kind i.body i.result ⊎ IsMoving i.type i.kind i.body i.result

  abbrev pub entry_of : Item → Entry
  entry_of i = record { type = i.type; kind = i.kind; encoded = i.encoded }

  abbrev pub types_of : List Item → List Text
  types_of [] = []
  types_of (i ∷ is) = i.type ∷ types_of is

  abbrev pub params_of : List Item → List (Value Big)
  params_of [] = []
  params_of (i ∷ is) = i.param ∷ params_of is

  abbrev pub results_of : List Item → List (Value Big)
  results_of [] = []
  results_of (i ∷ is) = i.result ∷ results_of is

  abbrev pub entries_of : List Item → List Entry
  entries_of [] = []
  entries_of (i ∷ is) = entry_of i ∷ entries_of is

  -- What stands in the static part, and what stands behind it.
  abbrev pub head_of : ℕ → Item → Text
  head_of offset i = elim i.layout [ inl _ ↦ i.body | inr _ ↦ padded offset ]

  abbrev pub tail_of : Item → Text
  tail_of i = elim i.layout [ inl _ ↦ [] | inr _ ↦ i.body ]

  -- The bytes of the latter.
  abbrev pub tail_size : Item → ℕ
  tail_size i = elim i.layout [ inl _ ↦ 0 | inr m ↦ m.half ]

  abbrev pub heads_of : ℕ → List Item → Text
  heads_of offset [] = []
  heads_of offset (i ∷ is) = head_of offset i ++ heads_of (offset + tail_size i) is

  abbrev pub tails_of : List Item → Text
  tails_of [] = []
  tails_of (i ∷ is) = tail_of i ++ tails_of is

  abbrev pub end_of : ℕ → List Item → ℕ
  end_of offset [] = offset
  end_of offset (i ∷ is) = end_of (offset + tail_size i) is

  -- The bytes of an encoding.
  unfoldable pub bytes_of : List Item → ℕ
  unfolding head_sizes
  bytes_of is = end_of (head_sizes (entries_of is)) is

  pub entries-items :
      (is : List Item) → entries lib (types_of is) (params_of is) ≡ some (entries_of is)
  unfolding entries
  entries-items [] = refl
  entries-items (i ∷ is) = rw (i.required, i.encodes, entries-items is) refl

  abbrev pub kinds_of : List Item → List Kind
  kinds_of [] = []
  kinds_of (i ∷ is) = i.kind ∷ kinds_of is

  pub get_types-items : (is : List Item) → get_types lib (types_of is) ≡ some (kinds_of is)
  unfolding get_types
  get_types-items [] = refl
  get_types-items (i ∷ is) = rw (i.required, get_types-items is) refl

  pub end_of_ge : (offset : ℕ) (is : List Item) → offset ≤ end_of offset is
  end_of_ge offset [] = omega arith
  end_of_ge offset (i ∷ is) = omega (arith, end_of_ge (offset + tail_size i) is)

  behind-tail_size :
      (offset : ℕ) (i : Item)
      → behind (is_dynamic i.kind i.type) offset i.body ≡ offset + tail_size i
  behind-tail_size offset i = by_layout i.layout
    where
      by_layout :
          (l : Layout i)
          → behind (is_dynamic i.kind i.type) offset i.body
            ≡ offset + elim l [ inl _ ↦ 0 | inr m ↦ m.half ]
      by_layout (inl f) = rw f.still (omega arith)
      by_layout (inr m) = rw m.moves (omega (arith, m.moving_size))

  tail_text-tail_of : (i : Item) → tail_text (is_dynamic i.kind i.type) i.body ≡ tail_of i
  tail_text-tail_of i = by_layout i.layout
    where
      by_layout :
          (l : Layout i)
          → tail_text (is_dynamic i.kind i.type) i.body ≡ elim l [ inl _ ↦ [] | inr _ ↦ i.body ]
      by_layout (inl f) = rw f.still refl
      by_layout (inr m) = rw m.moves refl

  module _ (exact : IsExact lib.runtime.big_number) where
    head_text-head_of :
        (offset : ℕ) (i : Item)
        → offset < word_mod
        → head_text lib (is_dynamic i.kind i.type) offset i.body ≡ some (head_of offset i)
    head_text-head_of offset i h = by_layout i.layout
      where
        by_layout :
            (l : Layout i)
            → head_text lib (is_dynamic i.kind i.type) offset i.body
              ≡ some (elim l [ inl _ ↦ i.body | inr _ ↦ padded offset ])
        by_layout (inl f) = rw f.still refl
        by_layout (inr m) = rw m.moves (word-number lib.runtime.big_number exact (pos offset) h)

    pub heads-items :
        (offset : ℕ) (is : List Item)
        → end_of offset is < word_mod
        → heads lib offset (entries_of is) ≡ some (heads_of offset is, end_of offset is)
    unfolding heads
    heads-items offset [] h = refl
    heads-items offset (i ∷ is) h =
        let low : offset < word_mod = omega (arith, end_of_ge (offset + tail_size i) is) in
        rw
          (
            i.settled offset,
            head_text-head_of offset i low,
            behind-tail_size offset i,
            heads-items (offset + tail_size i) is h,
          )
          refl

  pub tails-items :
      (offset : ℕ) (is : List Item) → tails lib offset (entries_of is) ≡ some (tails_of is)
  unfolding tails
  tails-items offset [] = refl
  tails-items offset (i ∷ is) =
      rw
        (
          i.settled offset,
          behind-tail_size offset i,
          tails-items (offset + tail_size i) is,
          tail_text-tail_of i,
        )
        refl
