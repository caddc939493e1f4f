-- ===== src/Iban/Mod97.antt =====
-- mod9710 of web3.js computes the remainder of a decimal numeral of any length.
use ultron.Prelude.{
  ℕ, zero, suc, ◌+◌, ◌*◌, ◌%◌, ◌<◌, ◌≤◌, ◌≡◌, ap, sym, ◌∙◌, true, some, [], ◌∷◌, ◌++◌, arith, ltb,
  length, take, drop, length-append, length-take, length-drop, Bool-cases, inl, inr, ltb→lt,
}
use ultron.Prelude.Int.{pos}
use ultron.Text.{Text, is_digit, all}
use ultron.Text.Slices.{take-append-drop-length, all-take, all-drop, all-append}
use ultron.Text.Radix.{
  value, value_from, value_from-append, digit_value, digits, value-digits, length-digits_pos,
}
use ultron.Text.Number.{int, parse_int-digits, digits-is_digit, length-digits_97}
use ultron.Iban.{mod9710}

-- The rest of a numeral sees what stands before it only up to its remainder.
pub value_from_mod :
    (a b : ℕ) (s : Text) → a % 97 ≡ b % 97 → value_from 10 a s % 97 ≡ value_from 10 b s % 97
unfolding value_from
value_from_mod a b [] h = h
value_from_mod a b (c ∷ s) h =
    value_from_mod (a * 10 + digit_value c) (b * 10 + digit_value c) s (omega arith)

-- A block is replaced by its remainder.
abbrev shorter : Text → Text
shorter text = digits 10 (value 10 (take 9 text) % 97) ++ drop (length (take 9 text)) text

shorter-value : (text : Text) → value 10 (shorter text) % 97 ≡ value 10 text % 97
unfolding value
shorter-value text =
    let block = take 9 text in
    let later = drop (length block) text in
    rw (value_from-append 10 0 (digits 10 (value_from 10 0 block % 97)) later) (
      value_from_mod _ (value_from 10 0 block) later
        (omega (arith, value-digits 10 (value_from 10 0 block % 97) (omega arith) (omega arith)))
      ∙ ap (λ (n : ℕ). n % 97)
          (sym (value_from-append 10 0 block later)
            ∙ ap (value_from 10 0) (take-append-drop-length 9 text)))

shorter-length : (text : Text) → 2 < length text → length (shorter text) < length text
shorter-length text h = omega (
  arith,
  length-append (digits 10 (value 10 (take 9 text) % 97)) (drop (length (take 9 text)) text),
  length-drop (length (take 9 text)) text,
  length-take 9 text,
  length-digits_97 (value 10 (take 9 text) % 97),
)

shorter-is_digit : (text : Text) → all is_digit text ≡ true → all is_digit (shorter text) ≡ true
shorter-is_digit text h = rw (
  all-append is_digit (digits 10 (value 10 (take 9 text) % 97)) (drop (length (take 9 text)) text),
  digits-is_digit (value 10 (take 9 text) % 97),
  all-drop is_digit (length (take 9 text)) text h,
)

shorter_pos : (text : Text) → 0 < length (shorter text)
shorter_pos text = omega (
  arith,
  length-append (digits 10 (value 10 (take 9 text) % 97)) (drop (length (take 9 text)) text),
  length-digits_pos 10 (value 10 (take 9 text) % 97),
)

-- On a text of digits, with at least as much fuel as digits, the loop ends, and gives the
-- remainder modulo 97 of the number that they stand for.
pub mod9710-digits :
    (fuel : ℕ) (text : Text)
    → 0 < length text
    → length text ≤ fuel
    → all is_digit text ≡ true
    → mod9710 fuel text ≡ some (int (pos (value 10 text % 97)))
unfolding mod9710
mod9710-digits zero text p l h = absurd (omega arith)
mod9710-digits (suc fuel) text p l h = elim (Bool-cases (ltb 2 (length text))) [
  | inr short ↦ rw (short, parse_int-digits text p h)
  | inl long ↦
      let more : 2 < length text = ltb→lt 2 (length text) long in
      let block : 0 < length (take 9 text) = omega (arith, length-take 9 text) in
      rw (long, parse_int-digits (take 9 text) block (all-take is_digit 9 text h))
        (mod9710-digits fuel (shorter text) (shorter_pos text)
            (omega (arith, shorter-length text more)) (shorter-is_digit text h)
          ∙ ap (λ (n : ℕ). some (int (pos n))) (shorter-value text))
]
