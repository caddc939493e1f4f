-- ===== src/Utils/Tests.antt =====
-- Addresses and units at concrete texts.
use ultron.Prelude.{◌≡◌, ◌≢◌, refl, sym, ◌∙◌, true, false, some, none, replicate, ◌++◌}
use ultron.Prelude.Int.{pos, negsuc}
use ultron.Text.{Text, codes, text_eq, text_eq_iff}
use ultron.Text.Radix.{digits}
use ultron.Dictionary.{lookup}
use ultron.BigNumber.Integers.{integers, integers-IsExact}
use ultron.Utils.{Input, big, number, text}
use ultron.Utils.Address.{is_checksum_address, is_address, is_strict_address, to_checksum_address}
use ultron.Utils.Checksum.{is_address-to_checksum_address, to_checksum_address-is_checksum_address}
use ultron.Utils.Units.{to_ultron, from_ultron, unit_name, unit_map}
use ultron.Utils.Conversion.{from_ultron-to_ultron}

abbrev mixed : Text
mixed = codes "52908400098527886e0F7030069857D2e4169ee7"

abbrev capital : Text
capital = codes "52908400098527886E0F7030069857D2E4169EE7"

-- A hash that asks for capital letters everywhere.
abbrev all_high : Text → Text
all_high t = replicate 64 b'f'

capital_runs : is_checksum_address all_high (codes "0x" ++ capital) ≡ some true
unfolding is_checksum_address
capital_runs = refl

checksum_runs : to_checksum_address all_high (some mixed) ≡ codes "0x" ++ capital
unfolding to_checksum_address
checksum_runs = refl

is_address-to_checksum_address_example :
    (is_strict_address (to_checksum_address all_high (some mixed)) ≡ true)
    × (is_address all_high (to_checksum_address all_high (some mixed)) ≡ some true)
    × (is_checksum_address all_high (to_checksum_address all_high (some mixed)) ≡ some true)
    × (to_checksum_address all_high (some (codes "0x" ++ mixed))
        ≡ to_checksum_address all_high (some mixed))
is_address-to_checksum_address_example = is_address-to_checksum_address all_high mixed refl refl

to_checksum_address-is_checksum_address_example :
    to_checksum_address all_high (some capital) ≡ codes "0x" ++ capital
to_checksum_address-is_checksum_address_example =
    to_checksum_address-is_checksum_address all_high (λ t. (refl, refl)) capital refl refl
      capital_runs

some-ne-none : (t : Text) → some t ≡ none → ⊥
some-ne-none t e = cc

finney_found : lookup (unit_name (some (codes "Finney"))) unit_map ≡ some (codes "1000000000000000")
unfolding lookup unit_name text_eq
finney_found = refl

finney_known : lookup (unit_name (some (codes "Finney"))) unit_map ≢ none
finney_known e = some-ne-none (codes "1000000000000000") (sym finney_found ∙ e)

false-ne-true : false ≡ true → ⊥
false-ne-true e = cc

finney_worth : unit_name (some (codes "Finney")) ≢ codes "nodora"
unfolding unit_name text_eq
finney_worth e =
    false-ne-true ((text_eq_iff (unit_name (some (codes "Finney"))) (codes "nodora")).1 e)

from_ultron-to_ultron_example :
    ((r : Input integers.Big) × (to_ultron integers
          (big (integers-IsExact.of_int (negsuc 4)))
          (some (codes "Finney"))
        ≡ some r)
      × (from_ultron integers r (some (codes "Finney"))
          ≡ some (big (integers-IsExact.of_int (negsuc 4)))))
    × ((r : Input integers.Big) × (to_ultron integers (number (pos 7)) (some (codes "Finney"))
          ≡ some r)
        × (from_ultron integers r (some (codes "Finney")) ≡ some (text (digits 10 7))))
from_ultron-to_ultron_example =
    from_ultron-to_ultron integers integers-IsExact (some (codes "Finney")) finney_known
      finney_worth (negsuc 4) 7
