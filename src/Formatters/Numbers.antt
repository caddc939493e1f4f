-- ===== src/Formatters/Numbers.antt =====
-- Numbers of web3.js through a word of 64 hexadecimal digits and back.
use ultron.Prelude.{
  ℕ, zero, suc, ◌-◌, ◌^◌, ◌<◌, ◌≤◌, ◌≡◌, ◌≢◌, refl, ap, ◌∙◌, Bool, true, false, some, [], ◌∷◌, ◌++◌,
  arith, length, length-append, length-replicate, replicate, leb,
}
use ultron.Prelude.Int.{ℤ, pos, negsuc, ◌+ℤ◌, ltb_ℤ}
use ultron.Text.{Text, codes, all}
use ultron.Text.Radix.{
  value, value_from, value-zeros, value-digits, digits, digits-all, length-digits,
  length-digits_pos, is_digit_of, is_canonical,
}
use ultron.Text.Slices.{all-append}
use ultron.Text.Number.{number_text, negate}
use ultron.BigNumber.{BigNumber, IsExact}
use ultron.Utils.{number, to_big_number, to_twos_complement, pad_left}
use ultron.Formatters.{word}

-- 2 ^ 256 and 2 ^ 252, as words of hexadecimal digits have them.
abbrev pub word_mod : ℕ
word_mod = 2 ^ 256

abbrev pub digit_mod : ℕ
digit_mod = 2 ^ 252

-- What stands in the word for an integer.
abbrev pub wrap : ℤ → ℕ
wrap (pos n) = n
wrap (negsuc n) = word_mod - 1 - n

-- The magnitudes that fit a word.
abbrev pub Fits : ℤ → Type 0
Fits (pos n) = n < word_mod
Fits (negsuc n) = n < word_mod

pub wrap-lt : (z : ℤ) → Fits z → wrap z < word_mod
wrap-lt (pos n) h = h
wrap-lt (negsuc n) h = omega arith

all-replicate : (p : ℕ → Bool) (n c : ℕ) → p c ≡ true → all p (replicate n c) ≡ true
all-replicate p zero c h = refl
all-replicate p (suc n) c h = rw (h, all-replicate p n c h)

all-is_digit_of :
    (base : ℕ) (s : Text) → all (is_canonical base) s ≡ true → all (is_digit_of base) s ≡ true
all-is_digit_of base [] h = refl
all-is_digit_of base (c ∷ s) h = ground (arith, all-is_digit_of base s)

pub nonempty : (s : Text) → 0 < length s → s ≢ []
nonempty [] p e = absurd (omega arith)
nonempty (c ∷ s) p e = cc

-- The digits of `n`, with zeros in front to 64.
abbrev pub padded : ℕ → Text
padded n = replicate (64 - length (digits 16 n)) b'0' ++ digits 16 n

pub length-padded : (n : ℕ) → n < word_mod → length (padded n) ≡ 64
length-padded n h = omega (
  arith,
  length-append (replicate (64 - length (digits 16 n)) b'0') (digits 16 n),
  length-replicate {A = ℕ} (64 - length (digits 16 n)) b'0',
  length-digits 16 n 64 (omega arith) (omega arith) h,
)

pub padded-all : (n : ℕ) → all (is_digit_of 16) (padded n) ≡ true
padded-all n = rw (
  all-append (is_digit_of 16) (replicate (64 - length (digits 16 n)) b'0') (digits 16 n),
  all-replicate (is_digit_of 16) (64 - length (digits 16 n)) b'0' refl,
  all-is_digit_of 16 (digits 16 n) (digits-all 16 n (omega arith) (omega arith)),
)

pub padded-value : (n : ℕ) → value 16 (padded n) ≡ n
padded-value n =
    value-zeros 16 (64 - length (digits 16 n)) (digits 16 n)
    ∙ value-digits 16 n (omega arith) (omega arith)

le→leb : (m n : ℕ) → m ≤ n → leb m n ≡ true
le→leb m n h = ground arith

not-negative : (n : ℕ) → ltb_ℤ (pos n) (pos 0) ≡ false
not-negative n = ground arith

negative : (n : ℕ) → ltb_ℤ (negsuc n) (pos 0) ≡ true
negative n = ground arith

wrap_sum : (n : ℕ) → n < word_mod → pos (word_mod - 1) +ℤ negsuc n +ℤ pos 1 ≡ pos (wrap (negsuc n))
unfolding ◌+ℤ◌
wrap_sum n h = ground arith

module _ (b : BigNumber) (exact : IsExact b) where
  pub of_digits :
      (base n : ℕ) → 2 ≤ base → base ≤ 36 → b.of_text base (digits base n) ≡ exact.of_int (pos n)
  of_digits base n h k =
      exact.of_text-value base (digits base n) h k
        (nonempty (digits base n) (length-digits_pos base n))
        (all-is_digit_of base (digits base n) (digits-all base n h k))
      ∙ ap (λ (m : ℕ). exact.of_int (pos m)) (value-digits base n h k)

  pub of_one : b.of_text 10 (codes "1") ≡ exact.of_int (pos 1)
  unfolding value value_from
  of_one = exact.of_text-value 10 (codes "1") (omega arith) (omega arith) (cc) refl

  pub to_big_number-number : (z : ℤ) → to_big_number b (number z) ≡ exact.of_int z
  unfolding to_big_number number_text
  to_big_number-number (pos n) = of_digits 10 n (omega arith) (omega arith)
  to_big_number-number (negsuc n) =
      exact.of_text-negative 10 (digits 10 (suc n)) (omega arith) (omega arith)
        (nonempty (digits 10 (suc n)) (length-digits_pos 10 (suc n)))
        (all-is_digit_of 10 (digits 10 (suc n)) (digits-all 10 (suc n) (omega arith) (omega arith)))
      ∙ ap (λ (m : ℕ). exact.of_int (negate m))
          (value-digits 10 (suc n) (omega arith) (omega arith))

  pub all_ones : b.of_text 16 (replicate 64 b'f') ≡ exact.of_int (pos (word_mod - 1))
  unfolding value value_from
  all_ones = exact.of_text-value 16 (replicate 64 b'f') (omega arith) (omega arith) (cc) refl

  to_twos_complement-number :
      (z : ℤ) → Fits z → to_twos_complement b (number z) ≡ exact.of_int (pos (wrap z))
  unfolding to_twos_complement
  to_twos_complement-number (pos n) h = rw (
    to_big_number-number (pos n),
    exact.round_lem (pos n),
    exact.is_negative_lem (pos n),
    not-negative n,
  )
  to_twos_complement-number (negsuc n) h =
      rw
        (
          to_big_number-number (negsuc n),
          exact.round_lem (negsuc n),
          exact.is_negative_lem (negsuc n),
          negative n,
          all_ones,
          of_one,
          exact.plus_lem (pos (word_mod - 1)) (negsuc n),
          exact.plus_lem (pos (word_mod - 1) +ℤ negsuc n) (pos 1),
        )
        (ap exact.of_int (wrap_sum n h))

  pub word-number : (z : ℤ) → Fits z → word b (number z) ≡ some (padded (wrap z))
  unfolding word pad_left
  word-number z h =
      let short = length-digits 16 (wrap z) 64 (omega arith) (omega arith) (wrap-lt z h) in
      rw (
        to_twos_complement-number z h,
        exact.to_text-digits 16 (wrap z) (omega arith) (omega arith),
        le→leb (length (digits 16 (wrap z))) 65 (omega arith),
      )

  pub of_padded : (n : ℕ) → n < word_mod → b.of_text 16 (padded n) ≡ exact.of_int (pos n)
  of_padded n h =
      exact.of_text-value 16 (padded n) (omega arith) (omega arith)
        (nonempty (padded n) (omega (arith, length-padded n h))) (padded-all n)
      ∙ ap (λ (m : ℕ). exact.of_int (pos m)) (padded-value n)
