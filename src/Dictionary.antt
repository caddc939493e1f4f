-- ===== src/Dictionary.antt =====
-- JavaScript objects used as tables: entries in the order in which their keys were first set.
use ultron.Prelude.{
  ◌≢◌, ◌≡◌, refl, Bool, true, Option, none, some, List, [], ◌∷◌, arith, if◌then◌else◌,
}
use ultron.Text.{Text, text_eq, text_eq_iff, all}

module _ {ℓ} {V : Type ℓ} where
  unfoldable pub lookup : Text → List (Text × V) → Option V
  lookup key [] = none
  lookup key ((k, v) ∷ rest) = if text_eq k key then some v else lookup key rest

  -- table[key] = value
  unfoldable pub insert : Text → V → List (Text × V) → List (Text × V)
  insert key value [] = (key, value) ∷ []
  insert key value ((k, v) ∷ rest) =
      if text_eq k key then (k, value) ∷ rest else (k, v) ∷ insert key value rest

  -- delete table[key]
  unfoldable pub erase : Text → List (Text × V) → List (Text × V)
  erase key [] = []
  erase key ((k, v) ∷ rest) = if text_eq k key then erase key rest else (k, v) ∷ erase key rest

  pub lookup-insert :
      (key j : Text) (value : V) (table : List (Text × V))
      → lookup j (insert key value table) ≡ (if text_eq key j then some value else lookup j table)
  unfolding lookup insert
  lookup-insert key j value [] = refl
  lookup-insert key j value ((k, v) ∷ rest) =
      ground (
        arith,
        text_eq_iff k key,
        text_eq_iff k j,
        text_eq_iff key j,
        lookup-insert key j value rest,
      )

  pub lookup-erase :
      (key j : Text) (table : List (Text × V))
      → lookup j (erase key table) ≡ (if text_eq key j then none else lookup j table)
  unfolding lookup erase
  lookup-erase key j [] = ground arith
  lookup-erase key j ((k, v) ∷ rest) =
      ground (arith, text_eq_iff k key, text_eq_iff k j, text_eq_iff key j, lookup-erase key j rest)

  pub insert-ne_nil :
      (key : Text) (value : V) (table : List (Text × V)) → insert key value table ≢ []
  unfolding insert
  insert-ne_nil key value [] = cc
  insert-ne_nil key value ((k, v) ∷ rest) = ground arith

  -- What holds of every entry holds of the one that is found.
  pub lookup-all :
      (test : Text → V → Bool) (table : List (Text × V)) (key : Text) (value : V)
      → all (λ (k, v). test k v) table ≡ true
      → lookup key table ≡ some value
      → test key value ≡ true
  unfolding lookup
  lookup-all test [] key value h e = cc
  lookup-all test ((k, v) ∷ rest) key value h e =
      ground (arith, text_eq_iff k key, lookup-all test rest key value)
