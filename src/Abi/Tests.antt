-- ===== src/Abi/Tests.antt =====
-- Type names run through the model, and the theorems at some of them.
use ultron.Prelude.{◌*◌, ◌≡◌, refl, true, false, some, none, [], ◌∷◌, if◌then◌else◌, ◌==◌}
use ultron.Text.{codes, contains}
use ultron.Text.Radix.{value, value_from}
use ultron.Abi.{
  int, dynamic_bytes, bytes, real, is_type, require_type, nested_name, nested_types,
  is_dynamic_array, is_static_array, static_array_length, static_part_length, nested_length, scan,
  product_from, first_type, only_brackets, after,
}
use ultron.Abi.Names.{scan_state, array_name}
use ultron.Abi.Kinds.{require_type-ureal}

names_run :
    (nested_types (codes "int[2][][31]") ≡ codes "[2]" ∷ codes "[]" ∷ codes "[31]" ∷ [])
    × (nested_name (codes "int[2][]") ≡ codes "int[2]")
    × (is_dynamic_array (codes "int[2][]") ≡ true)
    × (static_array_length (codes "int[][31]") ≡ 31)
    × (static_part_length (codes "int[2][3]") ≡ 192)
unfolding nested_types nested_name is_dynamic_array static_array_length static_part_length
    nested_length scan product_from value value_from
names_run = (refl, refl, refl, refl, refl)

require_type_runs :
    (require_type (codes "bytes32[4]") ≡ some bytes)
    × (require_type (codes "bytes[]") ≡ some dynamic_bytes)
    × (require_type (codes "int256") ≡ some int)
    × (require_type (codes "fixed") ≡ none)
unfolding require_type is_type first_type only_brackets after contains
require_type_runs = (refl, refl, refl, refl)

array_name_example :
    (nested_name (codes "int[2][10]") ≡ codes "int[2]")
    × (is_dynamic_array (codes "int[2][10]") ≡ false)
    × (is_static_array (codes "int[2][10]") ≡ true)
    × (static_array_length (codes "int[2][10]") ≡ value 10 (codes "10"))
    × (static_part_length (codes "int[2][10]")
        ≡ static_part_length (codes "int[2]")
          * (if value 10 (codes "10") == 0 then 1 else value 10 (codes "10")))
unfolding scan_state
array_name_example = array_name (codes "int[2]") (codes "10") refl refl

require_type-ureal_example : require_type (codes "ureal128x128[2]") ≡ some real
unfolding is_type after only_brackets require_type contains
require_type-ureal_example = require_type-ureal (codes "ureal128") refl
