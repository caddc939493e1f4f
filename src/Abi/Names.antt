-- ===== src/Abi/Names.antt =====
-- The names of array types: brackets behind a name are what the scans of web3.js see.
use ultron.Prelude.{
  ℕ, ◌*◌, ◌≡◌, refl, sym, ap, ◌∙◌, Bool, true, false, not, Option, none, some, List, [], ◌∷◌, ◌++◌,
  arith, append_assoc, append-nil, length-append, take, if◌then◌else◌, ◌==◌,
}
use ultron.Text.{Text, is_digit, all}
use ultron.Text.Slices.{take-append_self}
use ultron.Text.Radix.{value}
use ultron.Abi.{
  scan, scan_next, scan_found, nested_types, nested_name, last_of, digits_of, is_dynamic_array,
  is_static_array, static_array_length, nested_length, product_from, static_part_length,
}

-- A scan that ends outside of brackets goes on over what follows.
unfoldable pub scan_state : Option Text → Text → Option Text
scan_state state [] = state
scan_state state (c ∷ s) = scan_state (scan_next state c) s

scan-append :
    (state : Option Text) (s t : Text)
    → scan state (s ++ t) ≡ scan state s ++ scan (scan_state state s) t
unfolding scan scan_state
scan-append state [] t = refl
scan-append state (c ∷ s) t =
    ap (λ r. scan_found state c ++ r) (scan-append (scan_next state c) s t)
    ∙ sym (append_assoc (scan_found state c) _ _)

scan_state-append :
    (state : Option Text) (s t : Text)
    → scan_state state (s ++ t) ≡ scan_state (scan_state state s) t
unfolding scan_state
scan_state-append state [] t = refl
scan_state-append state (c ∷ s) t = scan_state-append (scan_next state c) s t

digit_step :
    (read : Text) (c : ℕ)
    → is_digit c ≡ true
    → (scan_found (some read) c ≡ []) × (scan_next (some read) c ≡ some (read ++ c ∷ []))
digit_step read c h = (ground arith, ground arith)

scan-digits :
    (read d : Text)
    → all is_digit d ≡ true
    → (scan (some read) d ≡ []) × (scan_state (some read) d ≡ some (read ++ d))
unfolding scan scan_state
scan-digits read [] h = (refl, ap some (sym (append-nil read)))
scan-digits read (c ∷ d) h =
    let (found, state) = scan-digits (read ++ c ∷ []) d (ground arith) in
    let (quiet, digit) = digit_step read c (ground arith) in
    (rw (quiet, digit) found, rw digit (state ∙ ap some (append_assoc read (c ∷ []) d)))

-- "[" digits "]"
abbrev pub suffix : Text → Text
suffix d = b'[' ∷ (d ++ b']' ∷ [])

scan-suffix :
    (d : Text)
    → all is_digit d ≡ true
    → (scan none (suffix d) ≡ suffix d ∷ []) × (scan_state none (suffix d) ≡ none)
unfolding scan scan_state
scan-suffix d h =
    let (found, state) = scan-digits (b'[' ∷ []) d h in
    (
      scan-append (some (b'[' ∷ [])) d (b']' ∷ []) ∙ rw (found, state),
      scan_state-append (some (b'[' ∷ [])) d (b']' ∷ []) ∙ rw state,
    )

-- A name in which no bracket is left open.
abbrev pub IsClosed : Text → Type 0
IsClosed name = scan_state none name ≡ none

pub nested_types-suffix :
    (name d : Text)
    → IsClosed name
    → all is_digit d ≡ true
    → nested_types (name ++ suffix d) ≡ nested_types name ++ suffix d ∷ []
unfolding nested_types
nested_types-suffix name d closed h =
    scan-append none name (suffix d) ∙ rw (closed, (scan-suffix d h).0)

-- An array of a type whose name is closed has a closed name too.
pub IsClosed-suffix :
    (name d : Text) → IsClosed name → all is_digit d ≡ true → IsClosed (name ++ suffix d)
IsClosed-suffix name d closed h =
    scan_state-append none name (suffix d) ∙ rw (closed, (scan-suffix d h).1)

digits_of-append : (s t : Text) → digits_of (s ++ t) ≡ digits_of s ++ digits_of t
digits_of-append [] t = refl
digits_of-append (c ∷ s) t = ground (arith, digits_of-append s t)

digits_of-all : (d : Text) → all is_digit d ≡ true → digits_of d ≡ d
digits_of-all [] h = refl
digits_of-all (c ∷ d) h = ground (arith, digits_of-all d)

digits_of-suffix : (d : Text) → all is_digit d ≡ true → digits_of (suffix d) ≡ d
digits_of-suffix d h = digits_of-append d (b']' ∷ []) ∙ rw (digits_of-all d h, append-nil d)

last_of-append : (t : Text) (us : List Text) (u : Text) → last_of t (us ++ u ∷ []) ≡ u
last_of-append t [] u = refl
last_of-append t (v ∷ us) u = last_of-append v us u

product_from-append :
    (acc : ℕ) (ts : List Text) (u : Text)
    → product_from acc (ts ++ u ∷ []) ≡ product_from acc ts * nested_length u
unfolding product_from
product_from-append acc [] u = refl
product_from-append acc (t ∷ ts) u = product_from-append (acc * nested_length t) ts u

-- A list that ends in an item, as a head, a tail and its last item.
ends_in :
    (ts : List Text) (u : Text)
    → (t : Text) × (rest : List Text) × (ts ++ u ∷ [] ≡ t ∷ rest) × (last_of t rest ≡ u)
ends_in [] u = (u, [], refl, refl)
ends_in (t ∷ ts) u = (t, ts ++ u ∷ [], refl, last_of-append t ts u)

abbrev pub is_nil : Text → Bool
is_nil [] = true
is_nil (c ∷ s) = false

module _ (name d : Text) (closed : IsClosed name) (h : all is_digit d ≡ true) where
  -- The nested types of the array: some head and tail, whose last is the suffix.
  seen :
      (t : Text) × (rest : List Text) × (nested_types (name ++ suffix d) ≡ t ∷ rest)
      × (last_of t rest ≡ suffix d)
  seen =
      let (t, rest, split, last) = ends_in (nested_types name) (suffix d) in
      (t, rest, nested_types-suffix name d closed h ∙ split, last)

  nested_name-suffix : nested_name (name ++ suffix d) ≡ name
  unfolding nested_name
  nested_name-suffix =
      let (t, rest, found, last) = seen in
      rw (found, nested_name, last)
        (ap (λ (n : ℕ). take n (name ++ suffix d)) (omega (arith, length-append name (suffix d)))
          ∙ take-append_self name (suffix d))

  is_dynamic_array-suffix : is_dynamic_array (name ++ suffix d) ≡ is_nil d
  unfolding is_dynamic_array
  is_dynamic_array-suffix =
      let (t, rest, found, last) = seen in
      rw (found, is_dynamic_array, last, digits_of-suffix d h) (by_digits d)
    where
      by_digits : (e : Text) → elim e [ [] ↦ true | _ ∷ _ ↦ false ] ≡ is_nil e
      by_digits [] = refl
      by_digits (c ∷ e) = refl

  static_part_length-suffix :
      static_part_length (name ++ suffix d) ≡ static_part_length name * nested_length (suffix d)
  unfolding static_part_length
  static_part_length-suffix =
      ap (product_from 32) (nested_types-suffix name d closed h)
      ∙ product_from-append 32 (nested_types name) (suffix d)

  is_static_array-suffix : is_static_array (name ++ suffix d) ≡ not (is_nil d)
  unfolding is_static_array
  is_static_array-suffix =
      let (t, rest, found, last) = seen in
      rw (found, is_static_array, last, digits_of-suffix d h) (by_digits d)
    where
      by_digits : (e : Text) → elim e [ [] ↦ false | _ ∷ _ ↦ true ] ≡ not (is_nil e)
      by_digits [] = refl
      by_digits (c ∷ e) = refl

  static_array_length-suffix :
      static_array_length (name ++ suffix d) ≡ (if is_nil d then 1 else value 10 d)
  unfolding static_array_length
  static_array_length-suffix =
      let (t, rest, found, last) = seen in
      rw (found, static_array_length, last, digits_of-suffix d h) (by_digits d)
    where
      by_digits :
          (e : Text)
          → elim e [ [] ↦ 1 | c ∷ s ↦ value 10 (c ∷ s) ] ≡ (if is_nil e then 1 else value 10 e)
      by_digits [] = refl
      by_digits (c ∷ e) = refl

  nested_length-suffix : nested_length (suffix d) ≡ (if value 10 d == 0 then 1 else value 10 d)
  unfolding nested_length
  nested_length-suffix = rw (digits_of-suffix d h)

  -- Brackets with digits behind a name whose brackets are closed make the name of an array of that
  -- type: it is dynamic exactly without digits, else static with the length that they say; its
  -- static part is that of the type once for each item, and once where the length is 0 or left out.
  pub array_name :
      (nested_name (name ++ suffix d) ≡ name)
      × (is_dynamic_array (name ++ suffix d) ≡ is_nil d)
      × (is_static_array (name ++ suffix d) ≡ not (is_nil d))
      × (static_array_length (name ++ suffix d) ≡ (if is_nil d then 1 else value 10 d))
      × (static_part_length (name ++ suffix d)
          ≡ static_part_length name * (if value 10 d == 0 then 1 else value 10 d))
  array_name = (
    nested_name-suffix,
    is_dynamic_array-suffix,
    is_static_array-suffix,
    static_array_length-suffix,
    static_part_length-suffix ∙ ap (λ (n : ℕ). static_part_length name * n) nested_length-suffix,
  )
