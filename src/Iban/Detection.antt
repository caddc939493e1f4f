-- ===== src/Iban/Detection.antt =====
-- The checksum of web3.js detects a mistyped character.
use mathlib.Core.List.{flat_map}
use ultron.Prelude.{
  ℕ, ◌+◌, ◌-◌, ◌*◌, ◌%◌, ◌≤◌, ◌≡◌, ◌⊎◌, inl, inr, refl, ap, sym, ◌∙◌, true, ◌&&◌, some, [], ◌∷◌,
  ◌++◌, map, map-append, length-append, arith, length, ◌==◌,
}
use ultron.Text.{Text, codes, is_digit, is_upper, to_upper}
use ultron.Text.Radix.{value, value_from, value_from-append, digit_value}
use ultron.Iban.{letter_text, is_valid, is_bban}
use ultron.Iban.Checksum.{body, number, flat_map-append, letter_text-is_upper, letter_text-digit}
use ultron.Iban.Validity.{is_valid-xe}

-- What follows does not hide a difference of remainders.
value_from_mod_injective :
    (a b : ℕ) (s : Text) → value_from 10 a s % 97 ≡ value_from 10 b s % 97 → a % 97 ≡ b % 97
unfolding value_from
value_from_mod_injective a b [] h = h
value_from_mod_injective a b (c ∷ s) h =
    let step = value_from_mod_injective (a * 10 + digit_value c) (b * 10 + digit_value c) s h in
    omega arith

-- Both are digits, or both are capital letters.
abbrev pub SameKind : ℕ → ℕ → Type 0
SameKind x y =
    ((is_digit x ≡ true) × (is_digit y ≡ true)) ⊎ ((is_upper x ≡ true) × (is_upper y ≡ true))

upper_value : (a x : ℕ) → is_upper x ≡ true → value_from 10 a (letter_text x) ≡ a * 100 + (x - 55)
unfolding value_from
upper_value a x h = rw (letter_text-is_upper x h) (ground arith)

to_upper-is_upper : (x : ℕ) → is_upper x ≡ true → to_upper x ≡ x
unfolding to_upper
to_upper-is_upper x h = ground arith

-- A digit or a letter reaches the remainder whole.
one_digit :
    (a x y : ℕ)
    → is_digit x ≡ true
    → is_digit y ≡ true
    → value_from 10 a (x ∷ []) % 97 ≡ value_from 10 a (y ∷ []) % 97
    → x ≡ y
unfolding value_from
one_digit a x y h k e =
    let low : (48 ≤ x) × (x ≤ 57) × (digit_value x ≡ x - 48) =
      (ground arith, ground arith, ground arith) in
    let low' : (48 ≤ y) × (y ≤ 57) × (digit_value y ≡ y - 48) =
      (ground arith, ground arith, ground arith) in
    let same : (a * 10 + (x - 48)) % 97 ≡ (a * 10 + (y - 48)) % 97 = rw (low.2, low'.2) at e in
    omega arith

one_letter :
    (a x y : ℕ)
    → is_upper x ≡ true
    → is_upper y ≡ true
    → (a * 100 + (x - 55)) % 97 ≡ (a * 100 + (y - 55)) % 97
    → x ≡ y
one_letter a x y h k e =
    let low : (65 ≤ x) × (x ≤ 90) = (ground arith, ground arith) in
    let low' : (65 ≤ y) × (y ≤ 90) = (ground arith, ground arith) in omega arith

one_character :
    (a x y : ℕ)
    → SameKind x y
    → value_from 10 a (letter_text (to_upper x)) % 97
      ≡ value_from 10 a (letter_text (to_upper y)) % 97
    → x ≡ y
one_character a x y (inl (h, k)) e =
    one_digit a x y h k (rw (letter_text-digit x h, letter_text-digit y k) at e)
one_character a x y (inr (h, k)) e =
    one_letter a x y h k
      (rw (to_upper-is_upper x h, to_upper-is_upper y k, upper_value a x h, upper_value a y k) at e)

body-value :
    (pre : Text) (x : ℕ) (post : Text)
    → value 10 (body (pre ++ x ∷ post))
      ≡ value_from 10 (value_from 10 (value 10 (body pre)) (letter_text (to_upper x))) (body post)
unfolding value flat_map
body-value pre x post =
    ap (λ s. value_from 10 0 (flat_map letter_text s)) (map-append to_upper pre (x ∷ post))
    ∙ ap (value_from 10 0)
        (flat_map-append letter_text (map to_upper pre) (map to_upper (x ∷ post)))
    ∙ value_from-append 10 0 (body pre) (letter_text (to_upper x) ++ body post)
    ∙ value_from-append 10 _ (letter_text (to_upper x)) (body post)

valid-number :
    (fuel c d : ℕ) (bban : Text)
    → is_digit c ≡ true
    → is_digit d ≡ true
    → 2 * length bban + 6 ≤ fuel
    → is_valid fuel (record { iban = codes "XE" ++ c ∷ d ∷ bban }) ≡ some true
    → number c d bban % 97 ≡ 1
valid-number fuel c d bban h k enough v =
    let answer : some (is_bban bban && number c d bban % 97 == 1) ≡ some true =
      sym (is_valid-xe fuel c d bban h k enough) ∙ v in
    ground arith

behind-same :
    (fuel c d x y : ℕ) (pre post : Text)
    → is_digit c ≡ true
    → is_digit d ≡ true
    → 2 * length (pre ++ x ∷ post) + 6 ≤ fuel
    → SameKind x y
    → is_valid fuel (record { iban = codes "XE" ++ c ∷ d ∷ (pre ++ x ∷ post) }) ≡ some true
    → is_valid fuel (record { iban = codes "XE" ++ c ∷ d ∷ (pre ++ y ∷ post) }) ≡ some true
    → x ≡ y
behind-same fuel c d x y pre post h k enough kind v w =
    let n = valid-number fuel c d (pre ++ x ∷ post) h k enough v in
    let m =
      valid-number fuel c d (pre ++ y ∷ post) h k
        (omega (arith, length-append pre (x ∷ post), length-append pre (y ∷ post))) w in
    let bodies : value 10 (body (pre ++ x ∷ post)) % 97 ≡ value 10 (body (pre ++ y ∷ post)) % 97 =
      omega arith in
    one_character _ x y kind (
      value_from_mod_injective _ _ (body post)
        (rw (body-value pre x post, body-value pre y post) at bodies))

digit_value-is_digit : (c : ℕ) → is_digit c ≡ true → (48 ≤ c) × (c ≤ 57) × (digit_value c ≡ c - 48)
digit_value-is_digit c h = (ground arith, ground arith, ground arith)

-- Check digits of which at most one was changed.
check_digits-same :
    (fuel c d e f : ℕ) (bban : Text)
    → is_digit c ≡ true
    → is_digit d ≡ true
    → is_digit e ≡ true
    → is_digit f ≡ true
    → (c ≡ e) ⊎ (d ≡ f)
    → 2 * length bban + 6 ≤ fuel
    → is_valid fuel (record { iban = codes "XE" ++ c ∷ d ∷ bban }) ≡ some true
    → is_valid fuel (record { iban = codes "XE" ++ e ∷ f ∷ bban }) ≡ some true
    → (c ≡ e) × (d ≡ f)
check_digits-same fuel c d e f bban hc hd he hf one enough v w =
    let n = valid-number fuel c d bban hc hd enough v in
    let m = valid-number fuel e f bban he hf enough w in
    let (c_low, c_high, c_value) = digit_value-is_digit c hc in
    let (d_low, d_high, d_value) = digit_value-is_digit d hd in
    let (e_low, e_high, e_value) = digit_value-is_digit e he in
    let (f_low, f_high, f_value) = digit_value-is_digit f hf in
    elim one [ inl same ↦ (same, omega arith) | inr same ↦ (omega arith, same) ]

-- A text behind XE in which one character was changed: one of the two check digits to a digit, or
-- a character behind them to one of its kind.
pub data Changed : Text → Text → Type 0 where
  first :
      (c e d : ℕ) (bban : Text)
      → is_digit c ≡ true
      → is_digit e ≡ true
      → is_digit d ≡ true
      → Changed (c ∷ d ∷ bban) (e ∷ d ∷ bban)
  second :
      (c d f : ℕ) (bban : Text)
      → is_digit c ≡ true
      → is_digit d ≡ true
      → is_digit f ≡ true
      → Changed (c ∷ d ∷ bban) (c ∷ f ∷ bban)
  later_character :
      (c d x y : ℕ) (pre post : Text)
      → is_digit c ≡ true
      → is_digit d ≡ true
      → SameKind x y
      → Changed (c ∷ d ∷ (pre ++ x ∷ post)) (c ∷ d ∷ (pre ++ y ∷ post))

-- A valid number in which one character is changed, a check digit to another digit or a character
-- behind them to another digit or capital letter, as it was one, is not valid: if both are valid,
-- they are the same.
pub is_valid-substitution :
    (fuel : ℕ) (s t : Text)
    → Changed s t
    → 2 * length s + 2 ≤ fuel
    → is_valid fuel (record { iban = codes "XE" ++ s }) ≡ some true
    → is_valid fuel (record { iban = codes "XE" ++ t }) ≡ some true
    → s ≡ t
is_valid-substitution fuel s t (first c e d bban hc he hd) enough v w =
    let same =
      check_digits-same fuel c d e d bban hc hd he hd (inr refl) (omega (arith, enough)) v w in
    ap (λ x. x ∷ d ∷ bban) same.0
is_valid-substitution fuel s t (second c d f bban hc hd hf) enough v w =
    let same =
      check_digits-same fuel c d c f bban hc hd hc hf (inl refl) (omega (arith, enough)) v w in
    ap (λ x. c ∷ x ∷ bban) same.1
is_valid-substitution fuel s t (later_character c d x y pre post h k kind) enough v w =
    ap (λ z. c ∷ d ∷ (pre ++ z ∷ post))
      (behind-same fuel c d x y pre post h k (omega (arith, enough)) kind v w)
