-- ===== src/BigNumber/Integers.antt =====
-- Integers alone have the promised properties, so the promises can be met.
use ultron.Prelude.{
  ℕ, suc, ◌/◌, ◌<◌, ◌*◌, ◌≤◌, ◌≡◌, ◌-◌, ap, refl, true, [], ◌∷◌, arith, if◌then◌else◌, ◌==◌,
}
use native.Mathlib.Nat.{mul-div_cancel}
use ultron.Prelude.Int.{ℤ, pos, negsuc, ◌+ℤ◌, ◌-ℤ◌, ◌*ℤ◌, ltb_ℤ, pos_part}
use ultron.Text.{Text, all}
use ultron.Text.Number.{negate}
use ultron.Text.Radix.{digits, value, value_from, is_digit_of}
use ultron.BigNumber.{BigNumber, IsExact}

abbrev read_signed : ℕ → Text → ℤ
read_signed base [] = pos 0
read_signed base (c ∷ s) = if c == b'-' then negate (value base s) else pos (value base (c ∷ s))

read_signed-value :
    (base : ℕ) (s : Text)
    → base ≤ 36
    → all (is_digit_of base) s ≡ true
    → read_signed base s ≡ pos (value base s)
unfolding value value_from
read_signed-value base [] k h = refl
read_signed-value base (c ∷ s) k h = ground arith

-- Division rounds towards zero, by a divisor that is not negative.
abbrev divide : ℤ → ℤ → ℤ
divide (pos n) y = pos (n / pos_part y)
divide (negsuc n) y = negate (suc n / pos_part y)

times-pos : (m n : ℕ) → pos m *ℤ pos n ≡ pos (m * n)
unfolding ◌*ℤ◌
times-pos m n = ground arith

times-negsuc : (m n : ℕ) → 0 < n → negsuc m *ℤ pos n ≡ negsuc (suc m * n - 1)
unfolding ◌*ℤ◌
times-negsuc m n h = grind arith

positive : (m n : ℕ) → 0 < n → suc (suc m * n - 1) ≡ suc m * n
positive m n h = grind arith

divide-times : (x : ℤ) (n : ℕ) → 0 < n → divide (x *ℤ pos n) (pos n) ≡ x
divide-times (pos m) n h = rw (times-pos m n) (ap pos (mul-div_cancel m h))
divide-times (negsuc m) n h =
    rw (times-negsuc m n h, positive m n h) (ap negate (mul-div_cancel (suc m) h))

abbrev pub integers : BigNumber
integers = record {
  Big = ℤ;
  of_text = λ base s. read_signed base s;
  times = ◌*ℤ◌;
  divided_by = λ x y. divide x y;
  to_number = pos_part;
  to_text = λ base x. elim x [ pos n ↦ digits base n | negsuc n ↦ b'-' ∷ digits base (suc n) ];
  plus = ◌+ℤ◌;
  minus = ◌-ℤ◌;
  round = λ x. x;
  is_negative = λ x. ltb_ℤ x (pos 0);
}

pub integers-IsExact : IsExact integers
integers-IsExact = record {
  of_int = λ x. x;
  of_text-value = λ base s h k l m. read_signed-value base s k m;
  of_text-negative = λ base s h k l m. refl;
  to_number_lem = λ n h. refl;
  to_text-digits = λ base n h k. refl;
  plus_lem = λ x y. refl;
  minus_lem = λ x y. refl;
  round_lem = λ x. refl;
  is_negative_lem = λ x. refl;
  times_lem = λ x y. refl;
  divided_by_lem = divide-times;
}
