-- ===== src/Messages/Addresses.antt =====
-- Which addresses inputAddressFormatter of formatters.js in src/console/jsre/deps/web3.js takes.
use ultron.Prelude.{
  ℕ, ◌≡◌, ◌≢◌, length, refl, ap, ◌∙◌, true, false, none, some, [], ◌∷◌, ◌++◌, arith, if◌then◌else◌,
  Bool-cases, Option-cases, inl, inr,
}
use mathlib.Core.Option.{}
use ultron.Text.{Text, codes, all}
use ultron.Value.{Value, str}
use ultron.BigNumber.{IsExact}
use ultron.Text.Radix.{is_canonical}
use ultron.Iban.Direct.{address-from_address}
use ultron.Iban.{Iban, from_address, address, is_valid, is_direct, has_iban_form}
use ultron.Utils.Address.{is_strict_address, is_address, is_forty, is_hex, is_hex_lower}
use ultron.Messages.{Runtime, iban_of, input_address, ◌>>=◌}

starts_no_iban : (c : ℕ) (s : Text) → c ≢ b'X' → has_iban_form (c ∷ s) ≡ false
unfolding has_iban_form
starts_no_iban c s n = ground arith

no_iban : (fuel c : ℕ) (s : Text) → c ≢ b'X' → is_valid fuel (iban_of (c ∷ s)) ≡ some false
unfolding is_valid
no_iban fuel c s n = rw (starts_no_iban c s n)

lower-hex : (s : Text) → all is_hex_lower s ≡ true → all is_hex s ≡ true
lower-hex [] h = refl
lower-hex (c ∷ s) h = ground (arith, lower-hex s)

hex_no_iban :
    (fuel : ℕ) (s : Text) → is_forty is_hex s ≡ true → is_valid fuel (iban_of s) ≡ some false
hex_no_iban fuel [] h = absurd (ground arith)
hex_no_iban fuel (c ∷ s) h = no_iban fuel c s (ground arith)

strict_no_iban :
    (fuel : ℕ) (s : Text) → is_strict_address s ≡ true → is_valid fuel (iban_of s) ≡ some false
unfolding is_strict_address
strict_no_iban fuel [] h = absurd (ground arith)
strict_no_iban fuel (c ∷ []) h = absurd (ground arith)
strict_no_iban fuel (c ∷ d ∷ s) h = no_iban fuel c (d ∷ s) (ground arith)

none-ne-some {ℓ} : {A : Type ℓ} {v : A} → none ≡ some v → ⊥
none-ne-some e = cc

some-value {ℓ} : {A : Type ℓ} {u v : A} → some u ≡ some v → v ≡ u
some-value e = cc

module _ (rt : Runtime) where
  pub input_address-strict :
      (s : Text) → is_strict_address s ≡ true → input_address rt (str s) ≡ some (str s)
  unfolding input_address
  input_address-strict s h = rw (strict_no_iban 70 s h, h)

  lower-known : (s : Text) → is_forty is_hex_lower s ≡ true → is_address rt.sha3 s ≡ some true
  unfolding is_address
  lower-known s h = ground (arith, lower-hex s)

  lower-not_strict : (s : Text) → is_forty is_hex_lower s ≡ true → is_strict_address s ≡ false
  unfolding is_strict_address
  lower-not_strict [] h = refl
  lower-not_strict (c ∷ []) h = refl
  lower-not_strict (c ∷ d ∷ s) h = ground arith

  known-forty :
      (s : Text)
      → is_address rt.sha3 s ≡ some true
      → is_strict_address s ≡ false
      → is_forty is_hex s ≡ true
  unfolding is_address
  known-forty s h n = ground arith

  prefixed-strict :
      (s : Text) → is_forty is_hex s ≡ true → is_strict_address (codes "0x" ++ s) ≡ true
  unfolding is_strict_address
  prefixed-strict s h = h

  prefixed :
      (s : Text)
      → is_valid 70 (iban_of s) ≡ some false
      → is_strict_address s ≡ false
      → input_address rt (str s)
        ≡ (is_address rt.sha3 s >>= λ known. if known then some (str (codes "0x" ++ s)) else none)
  unfolding input_address
  prefixed s h n = rw (h, n)

  input_address-lower :
      (s : Text)
      → is_forty is_hex_lower s ≡ true
      → input_address rt (str s) ≡ some (str (codes "0x" ++ s))
  input_address-lower s h = rw (
    prefixed s (hex_no_iban 70 s (ground (arith, lower-hex s))) (lower-not_strict s h),
    lower-known s h,
  )

  input_address-direct :
      (s : Text)
      → is_valid 70 (iban_of s) ≡ some true
      → is_direct (iban_of s) ≡ true
      → input_address rt (str s) ≡ some (str (codes "0x" ++ address rt.big_number (iban_of s)))
  unfolding input_address
  input_address-direct s h d = rw (h, d)

  -- What is answered for a text that is no direct number.
  other_address :
      (s : Text) (v : Value rt.big_number.Big)
      → is_valid 70 (iban_of s) ≡ some false
      → input_address rt (str s) ≡ some v
      → (t : Text) × (v ≡ str t) × (is_strict_address t ≡ true)
  other_address s v i h = elim (Bool-cases (is_strict_address s)) [
    | inl strict ↦ (s, cc (input_address-strict s strict), strict)
    | inr loose ↦ elim (Option-cases (is_address rt.sha3 s)) [
      | inl e ↦ absurd (none-ne-some (rw (prefixed s i loose, e) at h))
      | inr (false, e) ↦ absurd (none-ne-some (rw (prefixed s i loose, e) at h))
      | inr (true, e) ↦ (
        codes "0x" ++ s,
        some-value (rw (prefixed s i loose, e) at h),
        prefixed-strict s (known-forty s e loose),
      )
    ]
  ]

-- Whatever inputAddressFormatter makes of a text that is no valid IBAN is a strict address: 0x and
-- forty hexadecimal digits of either case.
pub is_strict_address-input_address :
    (rt : Runtime) (s : Text) (v : Value rt.big_number.Big)
    → is_valid 70 (iban_of s) ≡ some false
    → input_address rt (str s) ≡ some v
    → (t : Text) × (v ≡ str t) × (is_strict_address t ≡ true)
is_strict_address-input_address rt s v i h = other_address rt s v i h

-- The number that Iban.fromAddress makes of forty hexadecimal digits in lower case is taken by
-- inputAddressFormatter for that address, given bignumber.js exact on integers.
pub input_address-from_address :
    (rt : Runtime)
    → IsExact rt.big_number
    → (a : Text) → length a ≡ 40
    → all (is_canonical 16) a ≡ true
    → (i : Iban) × (from_address rt.big_number 70 a ≡ some i)
      × (input_address rt (str i.iban) ≡ some (str (codes "0x" ++ a)))
input_address-from_address rt exact a l h =
    let (i, made, valid, direct, back) =
      address-from_address rt.big_number exact 70 a h l (omega arith) in
    (
      i,
      made,
      input_address-direct rt i.iban valid direct ∙ ap (λ t. some (str (codes "0x" ++ t))) back,
    )
