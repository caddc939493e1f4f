-- ===== src/BigNumber.antt =====
-- The interface of bignumber.js, which web3.js bundles and this development does not model: the
-- calls that web3.js makes, and what is documented of them for integers.
pub mod Integers
use ultron.Prelude.{ℕ, ◌≤◌, ◌<◌, ◌≡◌, ◌≢◌, Bool, true, [], ◌∷◌, ◌^◌}
use ultron.Prelude.Int.{ℤ, pos, ◌+ℤ◌, ◌-ℤ◌, ◌*ℤ◌, ltb_ℤ}
use ultron.Text.{Text, all}
use ultron.Text.Number.{negate}
use ultron.Text.Radix.{is_digit_of, digits, value}

pub record BigNumber : Type 1 where
  pub Big : Type 0
  -- new BigNumber(text, base) and x.toString(base)
  pub of_text : ℕ → Text → Big
  pub to_text : ℕ → Big → Text
  -- x.times(y), x.dividedBy(y), x.toNumber()
  pub times : Big → Big → Big
  pub divided_by : Big → Big → Big
  pub to_number : Big → ℕ
  -- x.plus(y), x.minus(y), x.round(), x.lessThan(0)
  pub plus : Big → Big → Big
  pub minus : Big → Big → Big
  pub round : Big → Big
  pub is_negative : Big → Bool

-- What bignumber.js promises for integers: `of_int` picks the number that stands for one.
pub record IsExact (b : BigNumber) : Type 0 where
  pub of_int : ℤ → b.Big
  pub of_text-value :
      (base : ℕ) (s : Text)
      → 2 ≤ base
      → base ≤ 36
      → s ≢ []
      → all (is_digit_of base) s ≡ true
      → b.of_text base s ≡ of_int (pos (value base s))
  pub of_text-negative :
      (base : ℕ) (s : Text)
      → 2 ≤ base
      → base ≤ 36
      → s ≢ []
      → all (is_digit_of base) s ≡ true
      → b.of_text base (b'-' ∷ s) ≡ of_int (negate (value base s))
  -- A number is exact as far as JavaScript has it exactly.
  pub to_number_lem : (n : ℕ) → n < 2 ^ 53 → b.to_number (of_int (pos n)) ≡ n
  pub to_text-digits :
      (base n : ℕ) → 2 ≤ base → base ≤ 36 → b.to_text base (of_int (pos n)) ≡ digits base n
  pub plus_lem : (x y : ℤ) → b.plus (of_int x) (of_int y) ≡ of_int (x +ℤ y)
  pub minus_lem : (x y : ℤ) → b.minus (of_int x) (of_int y) ≡ of_int (x -ℤ y)
  pub round_lem : (x : ℤ) → b.round (of_int x) ≡ of_int x
  pub is_negative_lem : (x : ℤ) → b.is_negative (of_int x) ≡ ltb_ℤ x (pos 0)
  pub times_lem : (x y : ℤ) → b.times (of_int x) (of_int y) ≡ of_int (x *ℤ y)
  -- A quotient that is an integer is exact.
  pub divided_by_lem :
      (x : ℤ) (n : ℕ) → 0 < n → b.divided_by (of_int (x *ℤ pos n)) (of_int (pos n)) ≡ of_int x
