-- ===== src/Utils/Checksum.antt =====
-- The checksum of addresses in utils.js of src/console/jsre/deps/web3.js: toChecksumAddress and
-- isChecksumAddress agree.
use ultron.Prelude.{
  ◌≤◌, ℕ, zero, suc, ◌≡◌, refl, ap, ◌∙◌, true, some, [], ◌∷◌, ◌++◌, map, arith, length, length-map,
  drop,
}
use ultron.Text.{Text, codes, to_upper, to_lower, all}
use ultron.Utils.Address.{
  is_hex, is_hex_lower, remove_0x, check_from, checksum_text, is_checksum_address, is_address,
  is_strict_address, to_checksum_address,
}

remove_0x-hex : (s : Text) → all is_hex s ≡ true → remove_0x s ≡ s
unfolding remove_0x
remove_0x-hex [] h = refl
remove_0x-hex (c ∷ []) h = ground arith
remove_0x-hex (c ∷ d ∷ s) h = ground (arith, remove_0x-hex (d ∷ s))

lower-is_hex_lower : (c : ℕ) → is_hex c ≡ true → is_hex_lower (to_lower c) ≡ true
unfolding to_lower
lower-is_hex_lower c h = ground arith

lower-all : (s : Text) → all is_hex s ≡ true → all is_hex_lower (map to_lower s) ≡ true
lower-all [] h = refl
lower-all (c ∷ s) h = ground (arith, lower-is_hex_lower c, lower-all s)

hex-of-lower : (s : Text) → all is_hex_lower s ≡ true → all is_hex s ≡ true
hex-of-lower [] h = refl
hex-of-lower (c ∷ s) h = ground (arith, hex-of-lower s)

-- The capital letters are lost again in lower case.
lower-checksum : (h s : Text) → all is_hex_lower s ≡ true → map to_lower (checksum_text h s) ≡ s
unfolding checksum_text to_lower
lower-checksum h [] l = refl
lower-checksum h (c ∷ s) l = ground (arith, lower-checksum (drop 1 h) s)

length-checksum : (h s : Text) → length (checksum_text h s) ≡ length s
unfolding checksum_text
length-checksum h [] = refl
length-checksum h (c ∷ s) = ap suc (length-checksum (drop 1 h) s)

checksum-hex : (h s : Text) → all is_hex_lower s ≡ true → all is_hex (checksum_text h s) ≡ true
unfolding checksum_text
checksum-hex h [] l = refl
checksum-hex h (c ∷ s) l = ground (arith, checksum-hex (drop 1 h) s)

check-checksum :
    (n : ℕ) (h s : Text)
    → all is_hex_lower s ≡ true
    → length s ≡ n
    → check_from n h (checksum_text h s) ≡ some true
unfolding check_from checksum_text
check-checksum zero h s l e = refl
check-checksum (suc n) h [] l e = absurd (omega arith)
check-checksum (suc n) h (c ∷ s) l e = ground (arith, check-checksum n (drop 1 h) s)

-- Where the comparison succeeds against a hash of digits, the text is the checksum of its lower
-- case.
checksum-check :
    (n : ℕ) (h s : Text)
    → all is_hex s ≡ true
    → all is_hex h ≡ true
    → length s ≡ n
    → n ≤ length h
    → check_from n h s ≡ some true
    → checksum_text h (map to_lower s) ≡ s
unfolding check_from checksum_text to_lower to_upper
checksum-check zero h [] x y e f k = refl
checksum-check zero h (c ∷ s) x y e f k = absurd (omega arith)
checksum-check (suc n) h [] x y e f k = absurd (omega arith)
checksum-check (suc n) [] (c ∷ s) x y e f k = absurd (omega arith)
checksum-check (suc n) (d ∷ h) (c ∷ s) x y e f k = ground (arith, checksum-check n h s)

module _ (sha3 : Text → Text) (a : Text) (digits : all is_hex a ≡ true) where
  lower_fixed : remove_0x (map to_lower a) ≡ map to_lower a
  lower_fixed = remove_0x-hex (map to_lower a) (hex-of-lower (map to_lower a) (lower-all a digits))

  -- The checksum of the digits, behind 0x.
  checksum_body : Text
  checksum_body = checksum_text (sha3 (map to_lower a)) (map to_lower a)

  to_checksum-body : to_checksum_address sha3 (some a) ≡ b'0' ∷ b'x' ∷ checksum_body
  unfolding to_checksum_address checksum_body
  to_checksum-body = rw lower_fixed

  to_checksum-prefixed :
      to_checksum_address sha3 (some (b'0' ∷ b'x' ∷ a)) ≡ b'0' ∷ b'x' ∷ checksum_body
  unfolding to_checksum_address checksum_body
  to_checksum-prefixed = refl

  body-lower : map to_lower checksum_body ≡ map to_lower a
  unfolding checksum_body
  body-lower = lower-checksum (sha3 (map to_lower a)) (map to_lower a) (lower-all a digits)

  body-hex : all is_hex checksum_body ≡ true
  unfolding checksum_body
  body-hex = checksum-hex (sha3 (map to_lower a)) (map to_lower a) (lower-all a digits)

  body-check : length a ≡ 40 → check_from 40 (sha3 (map to_lower a)) checksum_body ≡ some true
  unfolding checksum_body
  body-check l =
      check-checksum 40 (sha3 (map to_lower a)) (map to_lower a) (lower-all a digits)
        (length-map a to_lower ∙ l)

  body-length : length checksum_body ≡ length a
  unfolding checksum_body
  body-length = length-checksum (sha3 (map to_lower a)) (map to_lower a) ∙ length-map a to_lower

  strict_body : length a ≡ 40 → is_strict_address (b'0' ∷ b'x' ∷ checksum_body) ≡ true
  unfolding is_strict_address
  strict_body l = ground (arith, body-length, body-hex)

  accepted_body : length a ≡ 40 → is_checksum_address sha3 (b'0' ∷ b'x' ∷ checksum_body) ≡ some true
  unfolding is_checksum_address
  accepted_body l = rw body-lower (body-check l)

  address_body : length a ≡ 40 → is_address sha3 (b'0' ∷ b'x' ∷ checksum_body) ≡ some true
  unfolding is_address
  address_body l = ground (arith, accepted_body l, strict_body l)

-- toChecksumAddress of forty hexadecimal digits of either case, with 0x in front or without, is an
-- address that isStrictAddress, isAddress and isChecksumAddress accept, whatever the hash is.
pub is_address-to_checksum_address :
    (sha3 : Text → Text) (a : Text)
    → all is_hex a ≡ true
    → length a ≡ 40
    → (is_strict_address (to_checksum_address sha3 (some a)) ≡ true)
      × (is_address sha3 (to_checksum_address sha3 (some a)) ≡ some true)
      × (is_checksum_address sha3 (to_checksum_address sha3 (some a)) ≡ some true)
      × (to_checksum_address sha3 (some (codes "0x" ++ a)) ≡ to_checksum_address sha3 (some a))
is_address-to_checksum_address sha3 a h l = rw (to_checksum-body sha3 a h) (
  strict_body sha3 a h l,
  address_body sha3 a h l,
  accepted_body sha3 a h l,
  to_checksum-prefixed sha3 a h,
)

-- Where the hash has 64 hexadecimal digits, isChecksumAddress accepts forty digits behind 0x only
-- if they are what toChecksumAddress makes of them.
pub to_checksum_address-is_checksum_address :
    (sha3 : Text → Text)
    → ((t : Text) → (length (sha3 t) ≡ 64) × (all is_hex (sha3 t) ≡ true))
    → (a : Text) → all is_hex a ≡ true
    → length a ≡ 40
    → is_checksum_address sha3 (codes "0x" ++ a) ≡ some true
    → to_checksum_address sha3 (some a) ≡ codes "0x" ++ a
unfolding is_checksum_address checksum_body
to_checksum_address-is_checksum_address sha3 s a h l c =
    to_checksum-body sha3 a h
    ∙ ap (λ t. b'0' ∷ b'x' ∷ t)
        (checksum-check 40 (sha3 (map to_lower a)) a h (s (map to_lower a)).1 l
          (omega (arith, (s (map to_lower a)).0)) c)
