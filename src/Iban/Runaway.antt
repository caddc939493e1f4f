-- ===== src/Iban/Runaway.antt =====
-- Where mod9710 of web3.js does not end: a block that is no number prints as NaN, which is longer
-- than the two characters at which the loop stops.
use mathlib.Core.List.{flat_map}
use ultron.Prelude.{
  Bool, ℕ, zero, suc, ◌<◌, ◌≡◌, refl, true, ◌&&◌, not, none, [], ◌∷◌, ◌++◌, arith, lt→ltb, length,
  length-append, take, drop,
}
use ultron.Text.{Text, codes, is_lower, is_upper, to_upper}
use ultron.Text.Number.{starts_no_number, parse_int-nan}
use ultron.Iban.{mod9710, from_bban, letter_text}
use ultron.Iban.Checksum.{body, iso13616_prepare-xe}

-- A text that begins with no number, and is longer than two characters, keeps the loop going.
mod9710-none :
    (fuel c : ℕ) (s : Text)
    → starts_no_number c ≡ true
    → 2 < length (c ∷ s)
    → mod9710 fuel (c ∷ s) ≡ none
unfolding mod9710
mod9710-none zero c s h l = refl
mod9710-none (suc fuel) c s h l =
    rw (lt→ltb 2 (length (c ∷ s)) l, parse_int-nan c (take 8 s) h)
      (mod9710-none fuel b'N' (codes "aN" ++ drop (length (take 8 s)) s) refl (omega arith))

-- A character that is neither a letter, a digit, a sign nor white space stays as it is.
abbrev pub is_other : ℕ → Bool
is_other c = starts_no_number c && not (is_lower c) && not (is_upper c)

letter_text-other : (c : ℕ) → is_other c ≡ true → letter_text (to_upper c) ≡ c ∷ []
unfolding letter_text to_upper
letter_text-other c h = ground arith

body-other : (c : ℕ) (s : Text) → is_other c ≡ true → body (c ∷ s) ≡ c ∷ body s
unfolding flat_map
body-other c s h = rw (letter_text-other c h)

-- No fuel is enough for `fromBban` on a text that begins with a character which is neither a letter,
-- a digit, a sign nor white space: the program does not return.
pub from_bban-none : (fuel c : ℕ) (s : Text) → is_other c ≡ true → from_bban fuel (c ∷ s) ≡ none
unfolding from_bban
from_bban-none fuel c s h = rw (
  iso13616_prepare-xe b'0' b'0' (c ∷ s) refl refl,
  body-other c s h,
  mod9710-none fuel c (body s ++ codes "331400") (ground arith)
      (omega (arith, length-append (body s) (codes "331400"))),
)
