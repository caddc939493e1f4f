-- ===== src/Abi/Kinds.antt =====
-- Which kind web3.js chooses for a type name.
use ultron.Prelude.{
  ℕ, ◌≡◌, refl, Bool, true, false, not, ◌||◌, some, [], ◌∷◌, ◌++◌, arith, if◌then◌else◌, ◌==◌,
  Option-cases, inl, inr,
}
use ultron.Text.{Text, codes, starts_with, contains}
use ultron.Abi.{address, real, ureal, is_type, require_type, after, only_brackets, skip_digits}

starts_with-append : (p post : Text) → starts_with p (p ++ post) ≡ true
unfolding starts_with
starts_with-append [] post = refl
starts_with-append (c ∷ p) post = rw (starts_with-append p post) (ground arith)

||-true : (b : Bool) → (b || true) ≡ true
||-true true = refl
||-true false = refl

contains-append : (pre p post : Text) → contains p (pre ++ (p ++ post)) ≡ true
unfolding contains
contains-append [] p post = contains_front (p ++ post) (starts_with-append p post)
  where
    contains_front : (s : Text) → starts_with p s ≡ true → contains p s ≡ true
    contains_front [] h = h
    contains_front (c ∷ s) h = rw h
contains-append (c ∷ pre) p post =
    rw (contains-append pre p post) (||-true (starts_with p (c ∷ (pre ++ (p ++ post)))))

-- A name with `address` anywhere in it is taken for an address.
pub require_type-address :
    (pre post : Text) → require_type (pre ++ (codes "address" ++ post)) ≡ some address
unfolding require_type is_type
require_type-address pre post = rw (contains-append pre (codes "address") post)

has : ℕ → Text → Bool
has c [] = false
has c (d ∷ s) = d == c || has c s

only_brackets-plain :
    (inside : Bool) (s : Text) → only_brackets inside s ≡ true → has b'd' s ≡ false
unfolding only_brackets has
only_brackets-plain inside [] h = refl
only_brackets-plain inside (c ∷ s) h =
    ground (arith, only_brackets-plain (if inside then not (c == b']') else true) s)

skip_digits-plain : (s : Text) → has b'd' (skip_digits s) ≡ false → has b'd' s ≡ false
unfolding has
skip_digits-plain [] h = refl
skip_digits-plain (c ∷ s) h = ground (arith, skip_digits-plain s)

starts_with-address : (s : Text) → has b'd' s ≡ false → starts_with (codes "address") s ≡ false
unfolding starts_with has
starts_with-address [] h = refl
starts_with-address (a ∷ []) h = ground arith
starts_with-address (a ∷ b ∷ s) h = ground arith

contains-address : (s : Text) → has b'd' s ≡ false → contains (codes "address") s ≡ false
unfolding contains has
contains-address [] h = starts_with-address [] h
contains-address (c ∷ s) h = rw (starts_with-address (c ∷ s) h) (contains-address s (ground arith))

after-eq : (p s t : Text) → after p s ≡ some t → s ≡ p ++ t
unfolding after
after-eq [] s t e = ground arith
after-eq (a ∷ p) [] t e = cc
after-eq (a ∷ p) (b ∷ s) t e = ground (arith, after-eq p s t)

ureal_shape :
    (name : Text)
    → is_type ureal name ≡ true
    → (s : Text) × (name ≡ codes "ureal" ++ s) × (only_brackets false (skip_digits s) ≡ true)
unfolding is_type
ureal_shape name h = elim (Option-cases (after (codes "ureal") name)) [
  | inl missing ↦ let wrong : false ≡ true = rw missing at h in cc
  | inr (s, found) ↦ (s, after-eq (codes "ureal") name s found, rw found at h)
]

require_type-ureal_shape :
    (s : Text) → has b'd' s ≡ false → require_type (codes "ureal" ++ s) ≡ some real
unfolding require_type is_type after contains starts_with has
require_type-ureal_shape s h = rw (contains-address (codes "ureal" ++ s) h)

-- No name is taken for a ureal: each name of that kind is taken for a real, which is signed.
pub require_type-ureal : (name : Text) → is_type ureal name ≡ true → require_type name ≡ some real
require_type-ureal name h =
    let (s, shape, brackets) = ureal_shape name h in
    rw shape
      (require_type-ureal_shape s (skip_digits-plain s (only_brackets-plain false _ brackets)))
