-- ===== src/Function/Data.antt =====
-- The data that a function of function.js in src/console/jsre/deps/web3.js makes of its arguments.
use ultron.Prelude.{
  ℕ, suc, ◌<◌, ◌≡◌, refl, sym, ap, ◌∙◌, false, some, List, [], ◌∷◌, ◌++◌, arith, length, take, drop,
  map, length-take,
}
use ultron.Text.{Text, codes, text_eq}
use ultron.Text.Slices.{take-append_self, drop-append_self}
use ultron.BigNumber.{IsExact}
use ultron.Value.{Value, str, obj, end, field, put}
use ultron.Formatters.Numbers.{word_mod}
use ultron.Coder.{Libraries}
use ultron.Coder.Encode.{encode_params}
use ultron.Coder.Decode.{decode_params}
use ultron.Coder.Params.{Param, type_of, param_of, result_of, total}
use ultron.Coder.RoundTrip.{decode_params-encode_params}
use ultron.Function.{
  SolidityFunction, Payload, to_payload, get_data, signature, has_more, with_data,
}

pub length-map {ℓ κ} :
    {A : Type ℓ} {B : Type κ} (f : A → B) (xs : List A) → length (map f xs) ≡ length xs
length-map f [] = refl
length-map f (x ∷ xs) = ap suc (length-map f xs)

take-front : {A : Type 0} (n : ℕ) (xs ys : List A) → length xs ≡ n → take n (xs ++ ys) ≡ xs
take-front n xs ys h = rw (← h) (take-append_self xs ys)

drop-front : {A : Type 0} (n : ℕ) (xs ys : List A) → length xs ≡ n → drop n (xs ++ ys) ≡ ys
drop-front n xs ys h = rw (← h) (drop-append_self xs ys)

module _ (lib : Libraries) where
  open lib.runtime use {sha3}
  open lib.runtime.big_number use {Big}

  -- The options of a call with the arguments only.
  abbrev pub plain_payload : SolidityFunction Big → Text → Payload Big
  plain_payload f data_ = record {
    options = obj (field (codes "to") f.address (field (codes "data") (str data_) end));
    data_ = data_;
  }

  abbrev pub data_of : SolidityFunction Big → Text → Text
  unfolding signature
  data_of f encoded = codes "0x" ++ (signature lib f ++ encoded)

  pub has_more-exact :
      (f : SolidityFunction Big) (args : List (Value Big))
      → length args ≡ length f.input_types
      → has_more f args ≡ false
  has_more-exact f args h = ground (arith, h)

  pub to_payload-exact :
      (f : SolidityFunction Big) (args : List (Value Big)) (encoded : Text)
      → length args ≡ length f.input_types
      → encode_params lib f.input_types args ≡ some encoded
      → to_payload lib f args ≡ some (plain_payload f (data_of f encoded))
  unfolding to_payload put with_data text_eq
  to_payload-exact f args encoded h e = rw (has_more-exact f args h, e) refl

  -- The arguments stand behind ten characters.
  pub data_of-parts :
      (f : SolidityFunction Big) (encoded : Text)
      → length (sha3 f.name) ≡ 64
      → (take 10 (data_of f encoded) ≡ codes "0x" ++ signature lib f)
        × (drop 10 (data_of f encoded) ≡ encoded)
  unfolding signature
  data_of-parts f encoded long =
      let prefix = codes "0x" ++ signature lib f in
      let size : length prefix ≡ 10 = omega (arith, length-take 8 (sha3 f.name), long) in
      (take-front 10 prefix encoded size, drop-front 10 prefix encoded size)

  module _ (exact : IsExact lib.runtime.big_number) where
    -- For arguments of the types and bounds of Param, with an encoding below 2 ^ 256 bytes: the data
    -- of a call begins with the first eight of the 64 digits of the hash of the function's full name,
    -- and what follows them is decoded to the arguments, integers as big numbers, given
    -- bignumber.js exact on integers.
    pub get_data-params :
        (f : SolidityFunction Big) (ps : List Param)
        → f.input_types ≡ map type_of ps
        → total ps < word_mod
        → length (sha3 f.name) ≡ 64
        → (data_ : Text) × (get_data lib f (map param_of ps) ≡ some data_)
          × (take 10 data_ ≡ codes "0x" ++ take 8 (sha3 f.name))
          × (decode_params lib f.input_types (drop 10 data_)
              ≡ some (map (result_of exact.of_int) ps))
    unfolding get_data signature
    get_data-params f ps types small long =
        let (encoded, made, read) = decode_params-encode_params lib exact ps small in
        let (front, back) = data_of-parts f encoded long in
        let payload =
          to_payload-exact f (map param_of ps) encoded
            (length-map param_of ps ∙ sym (ap length types ∙ length-map type_of ps))
            (rw types made) in
        (
          data_of f encoded,
          rw payload refl,
          front,
          ap (decode_params lib f.input_types) back ∙ rw types read,
        )
