-- ===== src/Utils/Conversion.antt =====
-- Amounts of utils.js in src/console/jsre/deps/web3.js from one unit to the smallest and back.
use ultron.Prelude.{
  ℕ, ◌<◌, ◌*◌, ◌≡◌, ◌≢◌, refl, ap, ◌∙◌, Bool, true, false, ◌&&◌, ◌||◌, Option, none, some, [], ◌∷◌,
  arith, inl, inr, Option-cases, ltb,
}
use ultron.Prelude.Int.{ℤ, pos, ◌*ℤ◌}
use ultron.Text.{Text, codes, all, text_eq, text_eq_iff, starts_with}
use ultron.Text.Radix.{
  value, value_from, is_digit_of, digits, digits-all, length-digits_pos, value-digits, is_canonical,
}
use ultron.Dictionary.{lookup, lookup-all}
use ultron.BigNumber.{BigNumber, IsExact}
use ultron.Formatters.Numbers.{nonempty, to_big_number-number}
use ultron.Utils.{Input, big, number, text, to_big_number}
use ultron.Utils.Units.{unit_map, unit_name, get_value_of_unit, from_ultron, to_ultron, same_form}

-- Each unit but the empty one is worth a positive number.
abbrev is_sound : Text → Text → Bool
is_sound key [] = false
is_sound key (c ∷ s) =
    all (is_digit_of 10) (c ∷ s) && (text_eq key (codes "nodora") || ltb 0 (value 10 (c ∷ s)))

sound_map : all (λ (k, v). is_sound k v) unit_map ≡ true
unfolding value value_from text_eq
sound_map = refl

sound_parts :
    (key t : Text)
    → is_sound key t ≡ true
    → key ≢ codes "nodora"
    → (t ≢ []) × (all (is_digit_of 10) t ≡ true) × (0 < value 10 t)
sound_parts key [] h n = cc
sound_parts key (c ∷ s) h n =
    (λ e. cc, ground arith, ground (arith, text_eq_iff key (codes "nodora")))

digits-not_hex :
    (c : ℕ) (s : Text)
    → all (is_digit_of 10) (c ∷ s) ≡ true
    → (starts_with (codes "0x") (c ∷ s) || starts_with (codes "-0x") (c ∷ s)) ≡ false
unfolding starts_with
digits-not_hex c [] h = ground arith
digits-not_hex c (d ∷ s) h = ground arith

module _ (b : BigNumber) (exact : IsExact b) (unit : Option Text)
    (known : lookup (unit_name unit) unit_map ≢ none)
    (worth : unit_name unit ≢ codes "nodora") where
  value_of_unit : (n : ℕ) × (0 < n) × (get_value_of_unit b unit ≡ some (exact.of_int (pos n)))
  unfolding get_value_of_unit
  value_of_unit = elim (Option-cases (lookup (unit_name unit) unit_map)) [
    | inl e ↦ absurd (known e)
    | inr (t, e) ↦
        let (full, decimal, positive) =
          sound_parts (unit_name unit) t
            (lookup-all is_sound unit_map (unit_name unit) t sound_map e) worth in
        (
          value 10 t,
          positive,
          rw (e) (ap some (exact.of_text-value 10 t (omega arith) (omega arith) full decimal)),
        )
  ]

times-pos : (m n : ℕ) → pos m *ℤ pos n ≡ pos (m * n)
unfolding ◌*ℤ◌
times-pos m n = ground arith

all-is_digit_of :
    (base : ℕ) (s : Text) → all (is_canonical base) s ≡ true → all (is_digit_of base) s ≡ true
all-is_digit_of base [] h = refl
all-is_digit_of base (c ∷ s) h = ground (arith, all-is_digit_of base s)

decimal : (n : ℕ) → all (is_digit_of 10) (digits 10 n) ≡ true
decimal n = all-is_digit_of 10 (digits 10 n) (digits-all 10 n (omega arith) (omega arith))

module _ (b : BigNumber) (exact : IsExact b) where
  to_big_number-decimal :
      (s : Text)
      → s ≢ []
      → all (is_digit_of 10) s ≡ true
      → to_big_number b (text s) ≡ exact.of_int (pos (value 10 s))
  unfolding to_big_number
  to_big_number-decimal [] n h = absurd (n refl)
  to_big_number-decimal (c ∷ s) n h =
      rw (digits-not_hex c s h) (exact.of_text-value 10 (c ∷ s) (omega arith) (omega arith) n h)

  to_big_number-digits : (n : ℕ) → to_big_number b (text (digits 10 n)) ≡ exact.of_int (pos n)
  to_big_number-digits n =
      to_big_number-decimal (digits 10 n) (nonempty (digits 10 n) (length-digits_pos 10 n))
        (decimal n)
      ∙ ap (λ (m : ℕ). exact.of_int (pos m)) (value-digits 10 n (omega arith) (omega arith))

module _ (b : BigNumber) (exact : IsExact b) (unit : Option Text) (k : ℕ) (positive : 0 < k)
    (e : get_value_of_unit b unit ≡ some (exact.of_int (pos k))) where
  big-conversion :
      (x : ℤ)
      → (r : Input b.Big) × (to_ultron b (big (exact.of_int x)) unit ≡ some r)
        × (from_ultron b r unit ≡ some (big (exact.of_int x)))
  unfolding to_ultron from_ultron same_form to_big_number
  big-conversion x = (
    big (exact.of_int (x *ℤ pos k)),
    rw (e, exact.times_lem x (pos k)),
    rw (e, exact.divided_by_lem x k positive),
  )

  to_ultron-digits : (n : ℕ) → to_ultron b (number (pos n)) unit ≡ some (text (digits 10 (n * k)))
  unfolding to_ultron same_form
  to_ultron-digits n = rw (
    e,
    to_big_number-number b exact (pos n),
    exact.times_lem (pos n) (pos k),
    times-pos n k,
    exact.to_text-digits 10 (n * k) (omega arith) (omega arith),
  )

  from_ultron-digits :
      (n : ℕ) → from_ultron b (text (digits 10 (n * k))) unit ≡ some (text (digits 10 n))
  unfolding from_ultron same_form
  from_ultron-digits n = rw (
    e,
    to_big_number-digits b exact (n * k),
    ← times-pos n k,
    exact.divided_by_lem (pos n) k positive,
    exact.to_text-digits 10 n (omega arith) (omega arith),
  )

-- Given bignumber.js exact on integers, an integer number of a known unit other than nodora goes
-- through toUltron and back through fromUltron: a big number comes back as itself, a natural number
-- as its decimal digits.
pub from_ultron-to_ultron :
    (b : BigNumber) (exact : IsExact b) (unit : Option Text)
    → lookup (unit_name unit) unit_map ≢ none
    → unit_name unit ≢ codes "nodora"
    → (x : ℤ) (n : ℕ)
    → ((r : Input b.Big) × (to_ultron b (big (exact.of_int x)) unit ≡ some r)
        × (from_ultron b r unit ≡ some (big (exact.of_int x))))
      × ((r : Input b.Big) × (to_ultron b (number (pos n)) unit ≡ some r)
          × (from_ultron b r unit ≡ some (text (digits 10 n))))
from_ultron-to_ultron b exact unit known worth x n =
    let (k, positive, e) = value_of_unit b exact unit known worth in
    (
      big-conversion b exact unit k positive e x,
      (
        text (digits 10 (n * k)),
        to_ultron-digits b exact unit k positive e n,
        from_ultron-digits b exact unit k positive e n,
      ),
    )
