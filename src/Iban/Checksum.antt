-- ===== src/Iban/Checksum.antt =====
-- The check digits of web3.js make a number of the scheme valid.
use mathlib.Core.List.{flat_map}
use ultron.Prelude.{
  ℕ, ◌+◌, ◌-◌, ◌*◌, ◌/◌, ◌%◌, ◌<◌, ◌≤◌, ◌≡◌, refl, ap, sym, ◌∙◌, true, ◌||◌, not, some, List, [],
  ◌∷◌, ◌++◌, append_assoc, map, arith, length, length-append, Bool-cases, inl, inr,
}
use ultron.Prelude.Int.{pos}
use ultron.Text.{Text, codes, text_eq, text_eq→eq, is_digit, is_upper, to_upper, all}
use ultron.Text.Tables.{numbers_under, table_entry}
use ultron.Text.Slices.{all-append}
use ultron.Text.Radix.{value, value_from, value_from-append, digit_value, digits, length-digits}
use ultron.Text.Number.{int, digits-is_digit}
use ultron.Iban.{iso13616_prepare, letter_text, mod9710, check_digits, is_alphanumeric}
use ultron.Iban.Mod97.{mod9710-digits}

-- The digits that stand for the part behind the check digits.
abbrev pub body : Text → Text
body bban = flat_map letter_text (map to_upper bban)

to_upper-is_alphanumeric : (c : ℕ) → is_alphanumeric c ≡ true → to_upper c ≡ c
unfolding to_upper
to_upper-is_alphanumeric c h = ground arith

letter_text-is_digit : (c : ℕ) → is_alphanumeric c ≡ true → all is_digit (letter_text c) ≡ true
unfolding letter_text
letter_text-is_digit c h = ground (arith, digits-is_digit (c - b'A' + 10))

length-letter_text : (c : ℕ) → length (letter_text c) ≤ 2
unfolding letter_text
length-letter_text c = elim (Bool-cases (is_upper c)) [
  | inl upper ↦
      rw upper (length-digits 10 (c - b'A' + 10) 2 (omega arith) (omega arith) (ground arith))
  | inr other ↦ rw other (omega arith)
]

pub flat_map-append {ℓ κ} :
    {A : Type ℓ} {B : Type κ} (f : A → List B) (xs ys : List A)
    → flat_map f (xs ++ ys) ≡ flat_map f xs ++ flat_map f ys
unfolding flat_map
flat_map-append f [] ys = refl
flat_map-append f (x ∷ xs) ys = rw (flat_map-append f xs ys) (sym (append_assoc (f x) _ _))

body-is_digit : (bban : Text) → all is_alphanumeric bban ≡ true → all is_digit (body bban) ≡ true
unfolding flat_map
body-is_digit [] h = refl
body-is_digit (c ∷ s) h =
    let first : is_alphanumeric c ≡ true = ground arith in
    rw (
      to_upper-is_alphanumeric c first,
      all-append is_digit (letter_text c) (flat_map letter_text (map to_upper s)),
      letter_text-is_digit c first,
      body-is_digit s (ground arith),
    )

length-body : (bban : Text) → length (body bban) ≤ 2 * length bban
unfolding flat_map
length-body [] = omega arith
length-body (c ∷ s) = omega (
  arith,
  length-append (letter_text (to_upper c)) (body s),
  length-letter_text (to_upper c),
  length-body s,
)

pub letter_text-digit : (c : ℕ) → is_digit c ≡ true → letter_text (to_upper c) ≡ c ∷ []
unfolding letter_text to_upper
letter_text-digit c h = ground arith

letter_text-X : letter_text (to_upper b'X') ≡ codes "33"
unfolding letter_text to_upper digits
letter_text-X = refl

letter_text-E : letter_text (to_upper b'E') ≡ codes "14"
unfolding letter_text to_upper digits
letter_text-E = refl

prepare_head :
    (c d : ℕ)
    → is_digit c ≡ true
    → is_digit d ≡ true
    → flat_map letter_text (map to_upper (codes "XE" ++ c ∷ d ∷ [])) ≡ codes "3314" ++ c ∷ d ∷ []
unfolding flat_map
prepare_head c d h k =
    rw (letter_text-X, letter_text-E, letter_text-digit c h, letter_text-digit d k)

-- The country code becomes 3314.
pub iso13616_prepare-xe :
    (c d : ℕ) (bban : Text)
    → is_digit c ≡ true
    → is_digit d ≡ true
    → iso13616_prepare (codes "XE" ++ c ∷ d ∷ bban) ≡ body bban ++ (codes "3314" ++ c ∷ d ∷ [])
unfolding iso13616_prepare
iso13616_prepare-xe c d bban h k =
    flat_map-append letter_text (map to_upper bban) (map to_upper (codes "XE" ++ c ∷ d ∷ []))
    ∙ ap (λ s. body bban ++ s) (prepare_head c d h k)

-- The number whose remainder is the checksum.
abbrev pub number : ℕ → ℕ → Text → ℕ
number c d bban = value 10 (body bban) * 1_000_000 + 331_400 + 10 * digit_value c + digit_value d

value-prepared :
    (c d : ℕ) (bban : Text) → value 10 (body bban ++ (codes "3314" ++ c ∷ d ∷ [])) ≡ number c d bban
unfolding value value_from
value-prepared c d bban =
    value_from-append 10 0 (body bban) (codes "3314" ++ c ∷ d ∷ []) ∙ omega arith

-- The checksum of a number of the country, with enough fuel.
pub mod9710-xe :
    (fuel c d : ℕ) (bban : Text)
    → is_digit c ≡ true
    → is_digit d ≡ true
    → all is_alphanumeric bban ≡ true
    → 2 * length bban + 6 ≤ fuel
    → mod9710 fuel (iso13616_prepare (codes "XE" ++ c ∷ d ∷ bban))
      ≡ some (int (pos (number c d bban % 97)))
mod9710-xe fuel c d bban h k l enough =
    let tail_digits = codes "3314" ++ c ∷ d ∷ [] in
    let size = length-append (body bban) tail_digits in
    rw (iso13616_prepare-xe c d bban h k, ← value-prepared c d bban)
      (mod9710-digits fuel (body bban ++ tail_digits) (omega (arith, size))
        (omega (arith, size, length-body bban))
        (rw (all-append is_digit (body bban) tail_digits, body-is_digit bban l, h, k)))

abbrev pub tens : ℕ → ℕ
tens n = 48 + n / 10

abbrev pub units : ℕ → ℕ
units n = 48 + n % 10

letter_text_table :
    all
      (λ c. not (is_upper c) || text_eq (letter_text c) (tens (c - 55) ∷ units (c - 55) ∷ []))
      (numbers_under 91)
    ≡ true
unfolding numbers_under text_eq letter_text digits
letter_text_table = refl

-- A capital letter becomes the two digits of a number from 10 to 35.
pub letter_text-is_upper :
    (c : ℕ) → is_upper c ≡ true → letter_text c ≡ tens (c - 55) ∷ units (c - 55) ∷ []
letter_text-is_upper c h =
    text_eq→eq _ _ (ground (arith, λ (u : c < 91). table_entry _ c 91 u letter_text_table))

check_digits_table :
    all
      (λ r. text_eq (check_digits (int (pos r))) (tens (98 - r) ∷ units (98 - r) ∷ []))
      (numbers_under 97)
    ≡ true
unfolding numbers_under text_eq check_digits digits
check_digits_table = refl

-- The two check digits make 98 with the remainder.
pub check_digits_lem :
    (r : ℕ) → r < 97 → check_digits (int (pos r)) ≡ tens (98 - r) ∷ units (98 - r) ∷ []
check_digits_lem r h = text_eq→eq _ _ (table_entry _ r 97 h check_digits_table)
