-- ===== src/Formatters/Signed.antt =====
-- Integers of web3.js go into a word and come back out of it, where the sign test allows.
use ultron.Prelude.{
  ℕ, zero, suc, ◌+◌, ◌-◌, ◌*◌, ◌^◌, ◌<◌, ◌≤◌, ◌≡◌, refl, ap, ◌∙◌, true, false, not, some, [], ◌∷◌,
  arith, length, if◌then◌else◌, leb, ◌==◌,
}
use ultron.Prelude.Int.{ℤ, pos, negsuc, ◌-ℤ◌}
use ultron.Text.{Text, all}
use ultron.Text.Tables.{numbers_under, table_entry}
use ultron.Text.Radix.{
  value, value_from, value_from-lt, value_from-ge, digits, digit_value, is_digit_of,
}
use ultron.BigNumber.{BigNumber, IsExact}
use ultron.Utils.{number}
use ultron.Formatters.{
  SolidityParam, static_param, format_input_int, format_output_int, format_output_uint,
  signed_value, signed_is_negative, first_is_one, or_zero, static_part,
}
use ultron.Formatters.Numbers.{
  word_mod, digit_mod, wrap, Fits, wrap-lt, padded, length-padded, padded-all, padded-value,
  word-number, of_padded, all_ones, of_one,
}

binary_table :
    all
      (λ d. if d == 0 then not (first_is_one (digits 2 d)) else first_is_one (digits 2 d))
      (numbers_under 16)
    ≡ true
unfolding numbers_under digits
binary_table = refl

-- A digit is written in binary with 1 in front, unless it is 0.
first_is_one-digits : (d : ℕ) → d < 16 → first_is_one (digits 2 d) ≡ not (d == 0)
first_is_one-digits d h = ground (arith, table_entry _ d 16 h binary_table)

abbrev rest_mod : ℕ
rest_mod = 16 ^ 63

sign_test : (d v : ℕ) → d * rest_mod ≤ v → v < (d + 1) * rest_mod → not (d == 0) ≡ leb digit_mod v
sign_test zero v low high = ground arith
sign_test (suc d) v low high = ground arith

value-cons : (c : ℕ) (s : Text) → value 16 (c ∷ s) ≡ value_from 16 (digit_value c) s
unfolding value value_from
value-cons c s = ap (λ (a : ℕ). value_from 16 a s) (omega arith)

value-single : (c : ℕ) → value 16 (c ∷ []) ≡ digit_value c
unfolding value_from
value-single c = value-cons c []

-- The first digit of a word is 0 exactly below 2 ^ 252.
first_digit :
    (c : ℕ) (s : Text)
    → length s ≡ 63
    → all (is_digit_of 16) (c ∷ s) ≡ true
    → not (digit_value c == 0) ≡ leb digit_mod (value 16 (c ∷ s))
first_digit c s size h = rw (value-cons c s) (
    sign_test (digit_value c) (value_from 16 (digit_value c) s)
      (rw size at (value_from-ge 16 (digit_value c) s))
      (rw size at (value_from-lt 16 (digit_value c) s (ground arith))))

wrap_back : (n : ℕ) → n < word_mod → pos (wrap (negsuc n)) -ℤ pos (word_mod - 1) -ℤ pos 1 ≡ negsuc n
unfolding ◌-ℤ◌
wrap_back n h = ground arith

-- From -2 ^ 255 on, and below 2 ^ 252.
abbrev pub IsSigned : ℤ → Type 0
IsSigned (pos n) = n < digit_mod
IsSigned (negsuc n) = n < 2 ^ 255

pub IsSigned-Fits : (z : ℤ) → IsSigned z → Fits z
IsSigned-Fits (pos n) h = omega arith
IsSigned-Fits (negsuc n) h = omega arith

below : (n : ℕ) → n < digit_mod → leb digit_mod n ≡ false
below n h = ground arith

above : (n : ℕ) → digit_mod ≤ n → leb digit_mod n ≡ true
above n h = ground arith

at_least : (n : ℕ) → n < 2 ^ 255 → leb digit_mod (wrap (negsuc n)) ≡ true
at_least n h = ground arith

wrapped : (n : ℕ) → n < word_mod → pos n -ℤ pos (word_mod - 1) -ℤ pos 1 ≡ negsuc (word_mod - 1 - n)
unfolding ◌-ℤ◌
wrapped n h = ground arith

or_zero-nonempty : (s : Text) → 0 < length s → or_zero s ≡ s
or_zero-nonempty [] p = absurd (omega arith)
or_zero-nonempty (c ∷ s) p = refl

module _ (b : BigNumber) (exact : IsExact b) where
  -- The sign test of a word asks whether it is at least 2 ^ 252.
  signed_is_negative-word :
      (s : Text)
      → length s ≡ 64
      → all (is_digit_of 16) s ≡ true
      → signed_is_negative b s ≡ leb digit_mod (value 16 s)
  unfolding signed_is_negative
  signed_is_negative-word [] size h = absurd (omega arith)
  signed_is_negative-word (c ∷ s) size h =
      let digit : digit_value c < 16 = ground arith in
      ap (λ x. first_is_one (b.to_text 2 x))
        (exact.of_text-value 16 (c ∷ []) (omega arith) (omega arith) (cc) (ground arith)
          ∙ ap (λ (m : ℕ). exact.of_int (pos m)) (value-single c))
      ∙ ap first_is_one (exact.to_text-digits 2 (digit_value c) (omega arith) (omega arith))
      ∙ first_is_one-digits (digit_value c) digit
      ∙ first_digit c s (omega arith) h

  signed_value-padded :
      (n : ℕ)
      → n < word_mod
      → signed_value b (padded n) ≡ (
          if leb digit_mod n
          then exact.of_int (pos n -ℤ pos (word_mod - 1) -ℤ pos 1)
          else exact.of_int (pos n))
  unfolding signed_value
  signed_value-padded n h = rw (
    signed_is_negative-word (padded n) (length-padded n h) (padded-all n),
    padded-value n,
    of_padded b exact n h,
    all_ones b exact,
    of_one b exact,
    exact.minus_lem (pos n) (pos (word_mod - 1)),
    exact.minus_lem (pos n -ℤ pos (word_mod - 1)) (pos 1),
  )

  -- What the decoder makes of an integer that the encoder took, for each that fits a word.
  output-input :
      (z : ℤ)
      → Fits z
      → (p : SolidityParam) × (format_input_int b (number z) ≡ some p)
        × (format_output_int b p ≡ some (signed_value b (padded (wrap z))))
        × (format_output_uint b p ≡ some (exact.of_int (pos (wrap z))))
  unfolding format_input_int format_output_int format_output_uint static_part
  output-input z h =
      let small = wrap-lt z h in
      let filled =
        or_zero-nonempty (padded (wrap z)) (omega (arith, length-padded (wrap z) small)) in
      (
        static_param (padded (wrap z)),
        rw (word-number b exact z h),
        rw filled,
        rw (filled, of_padded b exact (wrap z) small),
      )

  -- Every integer that fits a signed word and lies below 2 ^ 252 is decoded as itself.
  pub format_output_int-format_input_int :
      (z : ℤ)
      → IsSigned z
      → (p : SolidityParam) × (format_input_int b (number z) ≡ some p)
        × (format_output_int b p ≡ some (exact.of_int z))
  format_output_int-format_input_int z h =
      let (p, made, signed, _) = output-input z (IsSigned-Fits z h) in
      (
        p,
        made,
        signed ∙ ap some (signed_value-padded (wrap z) (wrap-lt z (IsSigned-Fits z h)) ∙ back z h),
      )
    where
      back :
          (y : ℤ)
          → IsSigned y
          → (if leb digit_mod (wrap y)
              then exact.of_int (pos (wrap y) -ℤ pos (word_mod - 1) -ℤ pos 1)
              else exact.of_int (pos (wrap y)))
            ≡ exact.of_int y
      back (pos n) k = rw (below n k)
      back (negsuc n) k = rw (at_least n k) (ap exact.of_int (wrap_back n (omega arith)))

  -- A positive integer from 2 ^ 252 on and below 2 ^ 256 is decoded as 2 ^ 256 less, though those
  -- below 2 ^ 255 fit a signed word.
  pub format_output_int-wraps :
      (n : ℕ)
      → digit_mod ≤ n
      → n < word_mod
      → (p : SolidityParam) × (format_input_int b (number (pos n)) ≡ some p)
        × (format_output_int b p ≡ some (exact.of_int (negsuc (word_mod - 1 - n))))
  format_output_int-wraps n h k =
      let (p, made, signed, _) = output-input (pos n) k in
      (
        p,
        made,
        signed ∙ ap some (signed_value-padded n k ∙ rw (above n h) (ap exact.of_int (wrapped n k))),
      )

  -- A natural number below 2 ^ 256 is decoded by the unsigned formatter as itself.
  pub format_output_uint-format_input_int :
      (n : ℕ)
      → n < word_mod
      → (p : SolidityParam) × (format_input_int b (number (pos n)) ≡ some p)
        × (format_output_uint b p ≡ some (exact.of_int (pos n)))
  format_output_uint-format_input_int n h =
      let (p, made, _, unsigned) = output-input (pos n) h in (p, made, unsigned)
