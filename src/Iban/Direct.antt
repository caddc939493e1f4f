-- ===== src/Iban/Direct.antt =====
-- An address goes into a direct number of web3.js and comes back out of it.
use ultron.Prelude.{
  ℕ, zero, suc, ◌+◌, ◌-◌, ◌*◌, ◌<◌, ◌≤◌, ◌≡◌, ◌≢◌, refl, ap, ◌∙◌, true, some, [], ◌∷◌, map, arith,
  length, length-append, length-replicate, length-map, replicate, Bool,
}
use native.Mathlib.Nat.{lt_of_lt_of_le}
use ultron.Text.{Text, to_upper, all}
use ultron.Text.Slices.{all-append}
use ultron.Text.Radix.{
  value, value_from, digit_value, is_canonical, is_digit_of, digits, value-digits, digits-all,
  length-digits, value-zeros, value_unique, value-lt,
}
use ultron.BigNumber.{BigNumber, IsExact}
use ultron.Iban.{
  Iban, pad_left, from_address, address, is_valid, is_direct, is_bban, is_alphanumeric,
}
use ultron.Iban.Validity.{made, from_bban-made, is_valid-made}

length-pad_left :
    (s : Text) (bytes : ℕ) → length (pad_left s bytes) ≡ bytes * 2 - length s + length s
unfolding pad_left
length-pad_left s bytes =
    length-append (replicate (bytes * 2 - length s) b'0') s
    ∙ ap (λ (n : ℕ). n + length s) (length-replicate (bytes * 2 - length s) b'0')

all-replicate : (p : ℕ → Bool) (n c : ℕ) → p c ≡ true → all p (replicate n c) ≡ true
all-replicate p zero c h = refl
all-replicate p (suc n) c h = rw (h, all-replicate p n c h)

all-pad_left :
    (base : ℕ) (s : Text) (bytes : ℕ)
    → 0 < base
    → all (is_canonical base) s ≡ true
    → all (is_canonical base) (pad_left s bytes) ≡ true
unfolding pad_left
all-pad_left base s bytes p h = rw (
  all-append (is_canonical base) (replicate (bytes * 2 - length s) b'0') s,
  all-replicate (is_canonical base) (bytes * 2 - length s) b'0' (ground arith),
  h,
)

pad_left-value : (base : ℕ) (s : Text) (bytes : ℕ) → value base (pad_left s bytes) ≡ value base s
unfolding pad_left
pad_left-value base s bytes = value-zeros base (bytes * 2 - length s) s

digit_value-to_upper : (c : ℕ) → digit_value (to_upper c) ≡ digit_value c
unfolding to_upper
digit_value-to_upper c = ground arith

value_from-to_upper :
    (base a : ℕ) (s : Text) → value_from base a (map to_upper s) ≡ value_from base a s
unfolding value_from
value_from-to_upper base a [] = refl
value_from-to_upper base a (c ∷ s) =
    ap (λ (d : ℕ). value_from base (a * base + d) (map to_upper s)) (digit_value-to_upper c)
    ∙ value_from-to_upper base (a * base + digit_value c) s

value-to_upper : (base : ℕ) (s : Text) → value base (map to_upper s) ≡ value base s
unfolding value
value-to_upper base s = value_from-to_upper base 0 s

to_upper-alphanumeric : (c : ℕ) → is_canonical 36 c ≡ true → is_alphanumeric (to_upper c) ≡ true
unfolding to_upper
to_upper-alphanumeric c h = ground arith

all-to_upper :
    (s : Text) → all (is_canonical 36) s ≡ true → all is_alphanumeric (map to_upper s) ≡ true
all-to_upper [] h = refl
all-to_upper (c ∷ s) h = ground (arith, to_upper-alphanumeric c, all-to_upper s)

all-is_digit_of :
    (base : ℕ) (s : Text) → all (is_canonical base) s ≡ true → all (is_digit_of base) s ≡ true
all-is_digit_of base [] h = refl
all-is_digit_of base (c ∷ s) h = ground (arith, all-is_digit_of base s)

alphanumeric-is_digit_of : (c : ℕ) → is_alphanumeric c ≡ true → is_digit_of 36 c ≡ true
alphanumeric-is_digit_of c h = ground arith

all-alphanumeric : (s : Text) → all is_alphanumeric s ≡ true → all (is_digit_of 36) s ≡ true
all-alphanumeric [] h = refl
all-alphanumeric (c ∷ s) h = ground (arith, alphanumeric-is_digit_of c, all-alphanumeric s)

length-ne_nil : (s : Text) → 0 < length s → s ≢ []
length-ne_nil [] p e = absurd (omega arith)
length-ne_nil (c ∷ s) p e = cc

is_bban-of_length :
    (s : Text) → all is_alphanumeric s ≡ true → 30 ≤ length s → length s ≤ 31 → is_bban s ≡ true
unfolding is_bban
is_bban-of_length s h k l = ground arith

is_direct-made : (s : Text) → 30 ≤ length s → length s ≤ 31 → is_direct (made s) ≡ true
unfolding is_direct
is_direct-made s k l = ground arith

module _ (b : BigNumber) (exact : IsExact b) (fuel : ℕ) (a : Text)
    (hex : all (is_canonical 16) a ≡ true) (size : length a ≡ 40) (enough : 68 ≤ fuel) where
  -- The address in base 36.
  abbrev bban : Text
  bban = map to_upper (pad_left (digits 36 (value 16 a)) 15)

  length-base36 : length (digits 36 (value 16 a)) ≤ 31
  length-base36 =
      length-digits 36 (value 16 a) 31 (omega arith) (omega arith)
        (lt_of_lt_of_le (rw size at (value-lt 16 a (all-is_digit_of 16 a hex))) (omega arith))

  length-bban : (30 ≤ length bban) × (length bban ≤ 31)
  length-bban = omega (
    arith,
    length-base36,
    length-pad_left (digits 36 (value 16 a)) 15,
    length-map (pad_left (digits 36 (value 16 a)) 15) to_upper,
  )

  bban-is_alphanumeric : all is_alphanumeric bban ≡ true
  bban-is_alphanumeric = all-to_upper (pad_left (digits 36 (value 16 a)) 15) (
      all-pad_left 36 (digits 36 (value 16 a)) 15 (omega arith)
        (digits-all 36 (value 16 a) (omega arith) (omega arith)))

  value-bban : value 36 bban ≡ value 16 a
  value-bban =
      value-to_upper 36 (pad_left (digits 36 (value 16 a)) 15)
      ∙ pad_left-value 36 (digits 36 (value 16 a)) 15
      ∙ value-digits 36 (value 16 a) (omega arith) (omega arith)

  bban-is_bban : is_bban bban ≡ true
  bban-is_bban = is_bban-of_length bban bban-is_alphanumeric length-bban.0 length-bban.1

  from_address-made : from_address b fuel a ≡ some (made bban)
  unfolding from_address
  from_address-made =
      rw
        (
          exact.of_text-value 16 a (omega arith) (omega arith)
              (length-ne_nil a (omega (arith, size))) (all-is_digit_of 16 a hex),
          exact.to_text-digits 36 (value 16 a) (omega arith) (omega arith),
        )
        (from_bban-made fuel bban bban-is_alphanumeric (omega (arith, length-bban)))

  hex_back : pad_left (digits 16 (value 16 a)) 20 ≡ a
  hex_back =
      let short =
        length-digits 16 (value 16 a) 40 (omega arith) (omega arith)
          (rw size at (value-lt 16 a (all-is_digit_of 16 a hex))) in
      value_unique 16 (pad_left (digits 16 (value 16 a)) 20) a (omega arith)
        (omega (arith, short, size, length-pad_left (digits 16 (value 16 a)) 20))
        (all-pad_left 16 (digits 16 (value 16 a)) 20 (omega arith)
          (digits-all 16 (value 16 a) (omega arith) (omega arith)))
        hex
        (pad_left-value 16 (digits 16 (value 16 a)) 20
          ∙ value-digits 16 (value 16 a) (omega arith) (omega arith))

  address-made : address b (made bban) ≡ a
  unfolding address
  address-made =
      rw
        (
          is_direct-made bban length-bban.0 length-bban.1,
          exact.of_text-value 36 bban (omega arith) (omega arith)
              (length-ne_nil bban (omega (arith, length-bban)))
              (all-alphanumeric bban bban-is_alphanumeric),
          value-bban,
          exact.to_text-digits 16 (value 16 a) (omega arith) (omega arith),
        )
        hex_back

  -- An address of forty hexadecimal digits in lower case goes into a valid direct number, and comes
  -- back out of it; the fuel is enough for both checksums.
  pub address-from_address :
      (i : Iban) × (from_address b fuel a ≡ some i)
      × (is_valid fuel i ≡ some true)
      × (is_direct i ≡ true)
      × (address b i ≡ a)
  address-from_address = (
    made bban,
    from_address-made,
    is_valid-made fuel bban bban-is_bban (omega (arith, length-bban)),
    is_direct-made bban length-bban.0 length-bban.1,
    address-made,
  )
