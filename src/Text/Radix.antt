-- ===== src/Text/Radix.antt =====
-- Numerals in a base from 2 to 36: the digits of a number, and the number that digits stand for.
use ultron.Prelude.{
  ℕ, zero, suc, ◌+◌, ◌-◌, ◌*◌, ◌/◌, ◌%◌, ◌^◌, ◌<◌, ◌≤◌, ◌≡◌, refl, ap, ◌∙◌, Bool, true, ◌&&◌, not,
  [], ◌∷◌, ◌++◌, arith, ltb, if◌then◌else◌, length, replicate, Bool-cases, inl, inr, ltb→lt, lt→ltb,
  length-append,
}
use native.Mathlib.Nat.{
  pow-suc, pow-zero, one-mul, mul-one, mul_assoc, pow-succ', mul-le-mul_right, le_trans,
  lt_of_lt_of_le, eq_of_mul-eq-mul_right, mod-eq_of_lt, mul-add-mod_self_right, div-lt_iff_lt-mul,
  div-add-mod,
}
use ultron.Text.{Text, is_digit, is_upper, is_lower, all}
use ultron.Text.Slices.{all-append}

-- `0` to `9`, then `a` to `z`.
abbrev pub digit_char : ℕ → ℕ
digit_char d = if ltb d 10 then d + 48 else d + 87

-- The value of a digit of either case, and 36 for what is none.
abbrev pub digit_value : ℕ → ℕ
digit_value c =
    if is_digit c then c - 48 else if is_lower c then c - 87 else if is_upper c then c - 55 else 36

abbrev pub is_digit_of : ℕ → ℕ → Bool
is_digit_of base c = ltb (digit_value c) base

-- A digit of the base, no letter in upper case.
abbrev pub is_canonical : ℕ → ℕ → Bool
is_canonical base c = is_digit_of base c && not (is_upper c)

-- The fuel is above the number, so it does not run out.
digits_from : ℕ → ℕ → ℕ → Text
digits_from zero base n = []
digits_from (suc fuel) base n =
    let high = digits_from fuel base (n / base) in
    if ltb n base then digit_char n ∷ [] else high ++ digit_char (n % base) ∷ []

-- The shortest numeral of `n`, in lower case.
unfoldable pub digits : ℕ → ℕ → Text
unfolding digits_from
digits base n = digits_from (suc n) base n

unfoldable pub value_from : ℕ → ℕ → Text → ℕ
value_from base acc [] = acc
value_from base acc (c ∷ s) = value_from base (acc * base + digit_value c) s

unfoldable pub value : ℕ → Text → ℕ
value base s = value_from base 0 s

pub value_from-append :
    (base acc : ℕ) (s t : Text)
    → value_from base acc (s ++ t) ≡ value_from base (value_from base acc s) t
unfolding value_from
value_from-append base acc [] t = refl
value_from-append base acc (c ∷ s) t = value_from-append base (acc * base + digit_value c) s t

pub digit_value-digit_char : (d : ℕ) → d < 36 → digit_value (digit_char d) ≡ d
digit_value-digit_char d h = ground arith

pub digit_char-is_canonical :
    (base d : ℕ) → base ≤ 36 → d < base → is_canonical base (digit_char d) ≡ true
digit_char-is_canonical base d h k = ground arith

pub div_lt : (n base : ℕ) → 2 ≤ base → base ≤ n → n / base < n
div_lt n base h k = grind (arith, div-add-mod)

digits_from_value :
    (fuel base n : ℕ)
    → 2 ≤ base
    → base ≤ 36
    → n < fuel
    → value_from base 0 (digits_from fuel base n) ≡ n
unfolding digits_from value_from
digits_from_value zero base n h k l = absurd (omega arith)
digits_from_value (suc fuel) base n h k l = elim (Bool-cases (ltb n base)) [
  | inl small ↦ rw small (ground (arith, digit_value-digit_char n))
  | inr large ↦
      let lower : n / base < n = div_lt n base h (ground arith) in
      rw
        (
          large,
          value_from-append base 0 (digits_from fuel base (n / base)),
          digits_from_value fuel base (n / base) h k (omega arith),
          digit_value-digit_char (n % base) (omega arith),
        )
        (omega arith)
]

-- A numeral stands for the number that it was made of.
pub value-digits : (base n : ℕ) → 2 ≤ base → base ≤ 36 → value base (digits base n) ≡ n
unfolding value digits
value-digits base n h k = digits_from_value (suc n) base n h k (omega arith)

digits_from-all :
    (fuel base n : ℕ)
    → 2 ≤ base
    → base ≤ 36
    → all (is_canonical base) (digits_from fuel base n) ≡ true
unfolding digits_from
digits_from-all zero base n h k = refl
digits_from-all (suc fuel) base n h k = elim (Bool-cases (ltb n base)) [
  | inl small ↦ rw small (rw (digit_char-is_canonical base n k (ltb→lt n base small)))
  | inr large ↦
      rw (large, all-append (is_canonical base) (digits_from fuel base (n / base)))
        (rw (
          digits_from-all fuel base (n / base) h k,
          digit_char-is_canonical base (n % base) k (omega arith),
        ))
]

-- Every character of a numeral is a digit of its base, no letter in upper case.
pub digits-all :
    (base n : ℕ) → 2 ≤ base → base ≤ 36 → all (is_canonical base) (digits base n) ≡ true
unfolding digits
digits-all base n h k = digits_from-all (suc n) base n h k

digits_from-length :
    (fuel base n k : ℕ) → 2 ≤ base → n < base ^ suc k → length (digits_from fuel base n) ≤ suc k
unfolding digits_from
digits_from-length zero base n k h l = omega arith
digits_from-length (suc fuel) base n zero h l =
    let small : n < base = rw (pow-suc, pow-zero, one-mul) at l in
    rw (lt→ltb n base small) (omega arith)
digits_from-length (suc fuel) base n (suc k) h l = elim (Bool-cases (ltb n base)) [
  | inl small ↦ rw small (omega arith)
  | inr large ↦
      rw (large, length-append (digits_from fuel base (n / base)) (digit_char (n % base) ∷ []))
        (omega (
          arith,
          digits_from-length fuel base (n / base) k h
              ((div-lt_iff_lt-mul (omega arith)).1 (rw pow-suc at l)),
        ))
]

-- A numeral has at least one digit.
pub length-digits_pos : (base n : ℕ) → 0 < length (digits base n)
unfolding digits digits_from
length-digits_pos base n = elim (Bool-cases (ltb n base)) [
  | inl small ↦ rw small (omega arith)
  | inr large ↦
      rw (large, length-append (digits_from n base (n / base)) (digit_char (n % base) ∷ []))
        (omega arith)
]

-- A number below the k-th power of the base has at most k digits.
pub length-digits : (base n k : ℕ) → 2 ≤ base → 0 < k → n < base ^ k → length (digits base n) ≤ k
unfolding digits
length-digits base n zero h p l = absurd (omega arith)
length-digits base n (suc k) h p l = digits_from-length (suc n) base n k h l

value_from-zeros :
    (base k : ℕ) (s : Text) → value_from base 0 (replicate k b'0' ++ s) ≡ value_from base 0 s
unfolding value_from
value_from-zeros base zero s = refl
value_from-zeros base (suc k) s =
    ap (λ (a : ℕ). value_from base a (replicate k b'0' ++ s)) (omega arith)
    ∙ value_from-zeros base k s

-- Leading zeros change no value.
pub value-zeros : (base k : ℕ) (s : Text) → value base (replicate k b'0' ++ s) ≡ value base s
unfolding value
value-zeros base k s = value_from-zeros base k s

digit_unique :
    (base a b c d : ℕ) → c < base → d < base → a * base + c ≡ b * base + d → (a ≡ b) × (c ≡ d)
digit_unique base a b c d h k e =
    let low : c ≡ d = cc (
      mul-add-mod_self_right a base c,
      mul-add-mod_self_right b base d,
      mod-eq_of_lt h,
      mod-eq_of_lt k,
      ap (λ (x : ℕ). x % base) e,
    ) in
    (eq_of_mul-eq-mul_right base (omega arith) a b (omega arith), low)

canonical_unique :
    (base c d : ℕ)
    → is_canonical base c ≡ true
    → is_canonical base d ≡ true
    → base ≤ 36
    → digit_value c ≡ digit_value d
    → c ≡ d
canonical_unique base c d h k l e = ground arith

value_from_unique :
    (base a b : ℕ) (s t : Text)
    → base ≤ 36
    → length s ≡ length t
    → all (is_canonical base) s ≡ true
    → all (is_canonical base) t ≡ true
    → value_from base a s ≡ value_from base b t
    → (a ≡ b) × (s ≡ t)
unfolding value_from
value_from_unique base a b [] [] w l h k e = (e, refl)
value_from_unique base a b [] (d ∷ t) w l h k e = absurd (omega arith)
value_from_unique base a b (c ∷ s) [] w l h k e = absurd (omega arith)
value_from_unique base a b (c ∷ s) (d ∷ t) w l h k e =
    let (e', same) =
      value_from_unique base (a * base + digit_value c) (b * base + digit_value d) s t w
        (omega arith) (ground arith) (ground arith) e in
    let (high, low) =
      digit_unique base a b (digit_value c) (digit_value d) (ground arith) (ground arith) e' in
    (high, cc (same, canonical_unique base c d (ground arith) (ground arith) w low))

-- Numerals of one length that stand for one number are one numeral.
pub value_unique :
    (base : ℕ) (s t : Text)
    → base ≤ 36
    → length s ≡ length t
    → all (is_canonical base) s ≡ true
    → all (is_canonical base) t ≡ true
    → value base s ≡ value base t
    → s ≡ t
unfolding value
value_unique base s t w l h k e = (value_from_unique base 0 0 s t w l h k e).1

pub value_from-lt :
    (base acc : ℕ) (s : Text)
    → all (is_digit_of base) s ≡ true
    → value_from base acc s < (acc + 1) * base ^ length s
unfolding value_from
value_from-lt base acc [] h = rw (pow-zero, mul-one) (omega arith)
value_from-lt base acc (c ∷ s) h =
    let first : digit_value c < base = ground arith in
    let rest = value_from-lt base (acc * base + digit_value c) s (ground arith) in
    let step : acc * base + digit_value c + 1 ≤ (acc + 1) * base = omega arith in
    rw (pow-succ', ← mul_assoc) (lt_of_lt_of_le rest (mul-le-mul_right (base ^ length s) step))

-- A numeral is below the power of its base that its length gives.
pub value-lt :
    (base : ℕ) (s : Text) → all (is_digit_of base) s ≡ true → value base s < base ^ length s
unfolding value
value-lt base s h = rw (one-mul) at (value_from-lt base 0 s h)

pub value_from-ge : (base acc : ℕ) (s : Text) → acc * base ^ length s ≤ value_from base acc s
unfolding value_from
value_from-ge base acc [] = rw (pow-zero, mul-one) (omega arith)
value_from-ge base acc (c ∷ s) =
    let rest = value_from-ge base (acc * base + digit_value c) s in
    let step : acc * base ≤ acc * base + digit_value c = omega arith in
    rw (pow-succ', ← mul_assoc) (le_trans (mul-le-mul_right (base ^ length s) step) rest)
