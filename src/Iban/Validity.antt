-- ===== src/Iban/Validity.antt =====
-- What fromBban and createIndirect of web3.js make is valid, and what valid means.
use ultron.Prelude.{
  ℕ, ◌+◌, ◌-◌, ◌*◌, ◌%◌, ◌≤◌, ◌≡◌, refl, ap, ◌∙◌, Bool, true, false, ◌&&◌, some, [], ◌∷◌, ◌++◌,
  arith, sym, length-append, length, take, drop, ◌==◌, Bool-cases, inl, inr, ==_iff,
}
use ultron.Text.{Text, codes, is_digit, all}
use ultron.Text.Slices.{all-append, take-append_self, drop-append_self}
use ultron.Iban.{
  Iban, is_alphanumeric, is_bban, has_iban_form, from_bban, create_indirect, is_valid, is_indirect,
  institution, client,
}
use ultron.Iban.Checksum.{number, mod9710-xe, check_digits_lem, tens, units}

pub is_bban-is_alphanumeric : (s : Text) → is_bban s ≡ true → all is_alphanumeric s ≡ true
unfolding is_bban
is_bban-is_alphanumeric [] h = refl
is_bban-is_alphanumeric (a ∷ []) h = ground arith
is_bban-is_alphanumeric (a ∷ b ∷ []) h = ground arith
is_bban-is_alphanumeric (a ∷ b ∷ c ∷ s) h = ground arith

abbrev xe : ℕ → ℕ → Text → Iban
xe c d bban = record { iban = codes "XE" ++ c ∷ d ∷ bban }

has_iban_form-xe :
    (c d : ℕ) (bban : Text)
    → is_digit c ≡ true
    → is_digit d ≡ true
    → has_iban_form (codes "XE" ++ c ∷ d ∷ bban) ≡ is_bban bban
unfolding has_iban_form is_bban
has_iban_form-xe c d bban h k = rw (h, k)

-- A number of the country is valid exactly when its part behind the check digits has one of the
-- two forms and its number leaves 1 modulo 97.
pub is_valid-xe :
    (fuel c d : ℕ) (bban : Text)
    → is_digit c ≡ true
    → is_digit d ≡ true
    → 2 * length bban + 6 ≤ fuel
    → is_valid fuel (xe c d bban) ≡ some (is_bban bban && number c d bban % 97 == 1)
unfolding is_valid
is_valid-xe fuel c d bban h k enough = elim (Bool-cases (is_bban bban)) [
  | inl form ↦ rw (
    has_iban_form-xe c d bban h k,
    form,
    mod9710-xe fuel c d bban h k (is_bban-is_alphanumeric bban form) enough,
  )
  | inr other ↦ rw (has_iban_form-xe c d bban h k, other)
]

-- What `from_bban` makes: the two digits of 98 less the remainder with 00 in their place.
abbrev pub made : Text → Iban
made bban = let r = number b'0' b'0' bban % 97 in xe (tens (98 - r)) (units (98 - r)) bban

pub from_bban-made :
    (fuel : ℕ) (bban : Text)
    → all is_alphanumeric bban ≡ true
    → 2 * length bban + 6 ≤ fuel
    → from_bban fuel bban ≡ some (made bban)
unfolding from_bban
from_bban-made fuel bban plain enough = rw (
  mod9710-xe fuel b'0' b'0' bban refl refl plain enough,
  check_digits_lem (number b'0' b'0' bban % 97) (omega arith),
)

pub is_valid-made :
    (fuel : ℕ) (bban : Text)
    → is_bban bban ≡ true
    → 2 * length bban + 6 ≤ fuel
    → is_valid fuel (made bban) ≡ some true
is_valid-made fuel bban form enough =
    let r = number b'0' b'0' bban % 97 in
    is_valid-xe fuel (tens (98 - r)) (units (98 - r)) bban (ground arith) (ground arith) enough
    ∙ rw form (ap some ((==_iff _ 1).1 (ground arith)))

-- Whatever has one of the two forms gets check digits that make it valid, and stays behind them.
-- The fuel is enough for both checksums.
pub is_valid-from_bban :
    (fuel : ℕ) (bban : Text)
    → is_bban bban ≡ true
    → 2 * length bban + 6 ≤ fuel
    → (i : Iban) × (from_bban fuel bban ≡ some i)
      × (is_valid fuel i ≡ some true)
      × (drop 4 i.iban ≡ bban)
is_valid-from_bban fuel bban form enough = (
  made bban,
  from_bban-made fuel bban (is_bban-is_alphanumeric bban form) enough,
  is_valid-made fuel bban form enough,
  refl,
)

has_iban_form_shape :
    (s : Text)
    → has_iban_form s ≡ true
    → (c : ℕ) × (d : ℕ) × (bban : Text) × (s ≡ codes "XE" ++ c ∷ d ∷ bban)
      × (is_digit c ≡ true)
      × (is_digit d ≡ true)
unfolding has_iban_form
has_iban_form_shape [] h = cc
has_iban_form_shape (x ∷ []) h = absurd (ground arith)
has_iban_form_shape (x ∷ y ∷ []) h = absurd (ground arith)
has_iban_form_shape (x ∷ y ∷ c ∷ []) h = absurd (ground arith)
has_iban_form_shape (x ∷ y ∷ c ∷ d ∷ bban) h =
    (c, d, bban, ground arith, ground arith, ground arith)

-- The check never runs forever: on every text it gives an answer, with enough fuel.
pub is_valid_total :
    (fuel : ℕ) (i : Iban) → 2 * length i.iban ≤ fuel → (v : Bool) × (is_valid fuel i ≡ some v)
unfolding is_valid
is_valid_total fuel i enough = elim (Bool-cases (has_iban_form i.iban)) [
  | inr other ↦ (false, rw other)
  | inl form ↦
      let (c, d, bban, shape, h, k) = has_iban_form_shape i.iban form in
      (
        is_bban bban && number c d bban % 97 == 1,
        ap (λ s. is_valid fuel (record { iban = s })) shape
            ∙ is_valid-xe fuel c d bban h k (omega (arith, ap length shape)),
      )
]

module _ (fuel : ℕ) (inst id : Text) (inst_plain : all is_alphanumeric inst ≡ true)
    (id_plain : all is_alphanumeric id ≡ true) (inst_size : length inst ≡ 4)
    (id_size : length id ≡ 9) (enough : 38 ≤ fuel) where
  indirect_size : length (inst ++ id) ≡ 13
  indirect_size = omega (arith, length-append inst id)

  indirect-is_bban : is_bban (codes "ETH" ++ (inst ++ id)) ≡ true
  unfolding is_bban
  indirect-is_bban = rw (indirect_size, all-append is_alphanumeric inst id, inst_plain, id_plain)

  -- An indirect number with an institution of four and a client of nine capital letters and digits
  -- is made, is valid and indirect, and gives both back.
  pub create_indirect_lem :
      (i : Iban) × (create_indirect fuel inst id ≡ some i)
      × (is_valid fuel i ≡ some true)
      × (is_indirect i ≡ true)
      × (institution i ≡ inst)
      × (client i ≡ id)
  unfolding create_indirect is_indirect institution client
  create_indirect_lem =
      let bban = codes "ETH" ++ (inst ++ id) in
      let form = indirect-is_bban in
      let room : 2 * length bban + 6 ≤ fuel = omega (arith, indirect_size) in
      (
        made bban,
        from_bban-made fuel bban (is_bban-is_alphanumeric bban form) room,
        is_valid-made fuel bban form room,
        rw indirect_size,
        rw indirect_size (ap (λ n. take n (inst ++ id)) (sym inst_size) ∙ take-append_self inst id),
        rw indirect_size (ap (λ n. drop n (inst ++ id)) (sym inst_size) ∙ drop-append_self inst id),
      )
