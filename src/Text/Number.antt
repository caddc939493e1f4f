-- ===== src/Text/Number.antt =====
-- JavaScript numbers where web3.js reads them from texts and prints them: integers, and NaN.
use ultron.Prelude.{
  ℕ, suc, ◌%◌, ◌<◌, ◌≤◌, length, Bool, true, false, ◌||◌, not, ◌&&◌, ◌≡◌, refl, zero, arith, [],
  ◌∷◌, if◌then◌else◌, leb, ◌==◌,
}
use ultron.Prelude.Int.{ℤ, pos, negsuc}
use ultron.Text.{Text, is_digit, codes, all}
use ultron.Text.Radix.{digits, value, is_canonical, digits-all, length-digits}

pub data Number : Type 0 where
  nan : Number
  int : ℤ → Number

-- What `parseInt` skips: the white space and line ends of ECMAScript.
abbrev pub is_space : ℕ → Bool
is_space c =
    (leb 9 c && leb c 13)
    || c == 32
    || c == 160
    || c == 0x1680
    || (leb 0x2000 c && leb c 0x200a)
    || c == 0x2028
    || c == 0x2029
    || c == 0x202f
    || c == 0x205f
    || c == 0x3000
    || c == 0xfeff

skip_spaces : Text → Text
skip_spaces [] = []
skip_spaces (c ∷ s) = if is_space c then skip_spaces s else c ∷ s

unfoldable pub leading_digits : Text → Text
leading_digits [] = []
leading_digits (c ∷ s) = if is_digit c then c ∷ leading_digits s else []

abbrev pub negate : ℕ → ℤ
negate zero = pos 0
negate (suc n) = negsuc n

-- parseInt(s, 10) behind the sign: NaN without a digit.
abbrev parse_digits : (ℕ → ℤ) → Text → Number
parse_digits sign [] = nan
parse_digits sign (c ∷ s) = int (sign (value 10 (c ∷ s)))

parse_signed : Text → Number
unfolding leading_digits
parse_signed [] = nan
parse_signed (c ∷ s) =
    if c == b'-'
    then parse_digits negate (leading_digits s)
    else if c == b'+'
    then parse_digits pos (leading_digits s)
    else parse_digits pos (leading_digits (c ∷ s))

-- parseInt(s, 10)
unfoldable pub parse_int : Text → Number
unfolding parse_signed skip_spaces
parse_int s = parse_signed (skip_spaces s)

-- x % m for a positive m: the sign is that of x, and -0 prints as 0.
abbrev pub remainder : Number → ℕ → Number
remainder nan m = nan
remainder (int (pos n)) m = int (pos (n % m))
remainder (int (negsuc n)) m = int (negate (suc n % m))

-- String(x)
unfoldable pub number_text : Number → Text
number_text nan = codes "NaN"
number_text (int (pos n)) = digits 10 n
number_text (int (negsuc n)) = b'-' ∷ digits 10 (suc n)

leading_digits-all : (s : Text) → all is_digit s ≡ true → leading_digits s ≡ s
unfolding leading_digits
leading_digits-all [] h = refl
leading_digits-all (c ∷ s) h = ground (arith, leading_digits-all s)

is_space-digit : (c : ℕ) → is_digit c ≡ true → is_space c ≡ false
is_space-digit c h = ground arith

parse_signed-digit :
    (c : ℕ) (s : Text)
    → is_digit c ≡ true
    → parse_signed (c ∷ s) ≡ parse_digits pos (leading_digits (c ∷ s))
unfolding parse_signed
parse_signed-digit c s h = ground arith

parse_int-digits_cons :
    (c : ℕ) (s : Text)
    → all is_digit (c ∷ s) ≡ true
    → parse_int (c ∷ s) ≡ int (pos (value 10 (c ∷ s)))
unfolding parse_int
parse_int-digits_cons c s h =
    let first : is_digit c ≡ true = ground arith in
    rw (is_space-digit c first, parse_signed-digit c s first, leading_digits-all (c ∷ s) h)

-- A text of digits is read as the number that it stands for.
pub parse_int-digits :
    (s : Text) → 0 < length s → all is_digit s ≡ true → parse_int s ≡ int (pos (value 10 s))
parse_int-digits [] p h = absurd (omega arith)
parse_int-digits (c ∷ s) p h = parse_int-digits_cons c s h

all-is_digit : (s : Text) → all (is_canonical 10) s ≡ true → all is_digit s ≡ true
all-is_digit [] h = refl
all-is_digit (c ∷ s) h = ground (arith, all-is_digit s)

-- A number is printed in digits.
pub digits-is_digit : (n : ℕ) → all is_digit (digits 10 n) ≡ true
digits-is_digit n = all-is_digit (digits 10 n) (digits-all 10 n (omega arith) (omega arith))

-- Below 97 it takes at most two.
pub length-digits_97 : (n : ℕ) → n < 97 → length (digits 10 n) ≤ 2
length-digits_97 n h = length-digits 10 n 2 (omega arith) (omega arith) (omega arith)

-- White space, a sign and a digit may begin a number; nothing else may.
abbrev pub starts_no_number : ℕ → Bool
starts_no_number c = not (is_space c) && (not (is_digit c) && not (c == b'-') && not (c == b'+'))

parse_signed-nan : (c : ℕ) (s : Text) → starts_no_number c ≡ true → parse_signed (c ∷ s) ≡ nan
unfolding parse_signed leading_digits
parse_signed-nan c s h = ground arith

not-true : (b r : Bool) → (not b && r) ≡ true → b ≡ false
not-true true r h = cc
not-true false r h = refl

pub parse_int-nan : (c : ℕ) (s : Text) → starts_no_number c ≡ true → parse_int (c ∷ s) ≡ nan
unfolding parse_int
parse_int-nan c s h =
    let visible : is_space c ≡ false = not-true (is_space c) _ h in
    rw (visible, parse_signed-nan c s h)
