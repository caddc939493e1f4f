-- ===== src/Utils/Units.antt =====
-- Units of config.js and utils.js in src/console/jsre/deps/web3.js: the table of units and the
-- conversions from and to the smallest one. What every object inherits is left out of the table.
use ultron.Prelude.{Bool, true, false, Option, none, some, List, [], ◌∷◌, map, if◌then◌else◌}
use mathlib.Core.Option
use ultron.Text.{Text, codes, to_lower}
use ultron.Dictionary.{lookup}
use ultron.BigNumber.{BigNumber}
use ultron.Utils.{Input, big, text, to_big_number}

-- What one unit is worth, in decimal digits.
abbrev pub unit_map : List (Text × Text)
unit_map =
    (codes "nodora", codes "0")
    ∷ (codes "ultron", codes "1")
    ∷ (codes "kultron", codes "1000")
    ∷ (codes "Kultron", codes "1000")
    ∷ (codes "babbage", codes "1000")
    ∷ (codes "femtodora", codes "1000")
    ∷ (codes "multron", codes "1000000")
    ∷ (codes "Multron", codes "1000000")
    ∷ (codes "lovelace", codes "1000000")
    ∷ (codes "picodora", codes "1000000")
    ∷ (codes "gultron", codes "1000000000")
    ∷ (codes "Gultron", codes "1000000000")
    ∷ (codes "shannon", codes "1000000000")
    ∷ (codes "nanodora", codes "1000000000")
    ∷ (codes "nano", codes "1000000000")
    ∷ (codes "szabo", codes "1000000000000")
    ∷ (codes "microdora", codes "1000000000000")
    ∷ (codes "micro", codes "1000000000000")
    ∷ (codes "finney", codes "1000000000000000")
    ∷ (codes "millidora", codes "1000000000000000")
    ∷ (codes "milli", codes "1000000000000000")
    ∷ (codes "dora", codes "1000000000000000000")
    ∷ (codes "kdora", codes "1000000000000000000000")
    ∷ (codes "grand", codes "1000000000000000000000")
    ∷ (codes "mdora", codes "1000000000000000000000000")
    ∷ (codes "gdora", codes "1000000000000000000000000000")
    ∷ (codes "tdora", codes "1000000000000000000000000000000")
    ∷ []

-- The names that the settings offer.
abbrev pub eth_units : List Text
eth_units =
    codes "ultron"
    ∷ codes "kultron"
    ∷ codes "Multron"
    ∷ codes "Gultron"
    ∷ codes "szabo"
    ∷ codes "finney"
    ∷ codes "femtodora"
    ∷ codes "picodora"
    ∷ codes "nanodora"
    ∷ codes "microdora"
    ∷ codes "millidora"
    ∷ codes "nano"
    ∷ codes "micro"
    ∷ codes "milli"
    ∷ codes "dora"
    ∷ codes "grand"
    ∷ codes "Mdora"
    ∷ codes "Gdora"
    ∷ codes "Tdora"
    ∷ codes "Pdora"
    ∷ codes "Edora"
    ∷ codes "Zdora"
    ∷ codes "Ydora"
    ∷ codes "Ndora"
    ∷ codes "Ddora"
    ∷ codes "Vdora"
    ∷ codes "Udora"
    ∷ []

-- unit ? unit.toLowerCase() : 'dora'; the empty text is none, as undefined is.
unfoldable pub unit_name : Option Text → Text
unfolding to_lower
unit_name none = codes "dora"
unit_name (some []) = codes "dora"
unit_name (some (c ∷ s)) = map to_lower (c ∷ s)

abbrev pub is_big : {Big : Type 0} → Input Big → Bool
is_big (big x) = true
is_big _ = false

module _ (b : BigNumber) where
  -- `none` is the error for a unit that does not exist.
  unfoldable pub get_value_of_unit : Option Text → Option b.Big
  unfolding unit_name lookup
  get_value_of_unit unit =
      Option.map (λ digits. b.of_text 10 digits) (lookup (unit_name unit) unit_map)

  -- A big number is answered by one, and anything else by its digits.
  unfoldable pub same_form : Input b.Big → b.Big → Input b.Big
  same_form given return_value =
      if is_big given then big return_value else text (b.to_text 10 return_value)

  unfoldable pub from_ultron : Input b.Big → Option Text → Option (Input b.Big)
  from_ultron given unit =
      Option.map (λ v. same_form given (b.divided_by (to_big_number b given) v))
        (get_value_of_unit unit)

  unfoldable pub to_ultron : Input b.Big → Option Text → Option (Input b.Big)
  to_ultron given unit =
      Option.map (λ v. same_form given (b.times (to_big_number b given) v)) (get_value_of_unit unit)
