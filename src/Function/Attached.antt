-- ===== src/Function/Attached.antt =====
-- attachToContract of function.js in src/console/jsre/deps/web3.js: the functions that a contract
-- offers by their names, each with its overloads by the types of their inputs. Members of a contract
-- that are no functions of it are left out.
use ultron.Prelude.{
  ◌≡◌, refl, ap, ◌∙◌, ◌&&◌, Option, none, some, List, [], if◌then◌else◌, Bool-cases, inl, inr,
}
use mathlib.Core.Option
use ultron.Text.{Text, text_eq, text_eq_iff}
use ultron.Dictionary.{lookup, insert, lookup-insert}
use ultron.Function.{SolidityFunction, display_name, type_name}

-- contract[displayName], and what it has by the names of types.
pub record Member (Big : Type 0) : Type 0 where
  pub main : SolidityFunction Big
  pub overloads : List (Text × SolidityFunction Big)

module _ {Big : Type 0} where
  -- The member before, or a new one.
  abbrev member_or : Option (Member Big) → SolidityFunction Big → Member Big
  member_or none f = record { main = f; overloads = [] }
  member_or (some m) f = m

  unfoldable pub attach_to_contract :
      List (Text × Member Big) → SolidityFunction Big → List (Text × Member Big)
  unfolding display_name type_name lookup insert
  attach_to_contract contract f =
      let m = member_or (lookup (display_name f) contract) f in
      insert (display_name f)
        (record { main = m.main; overloads = insert (type_name f) f m.overloads }) contract

  abbrev overload_in : Text → Option (Member Big) → Option (SolidityFunction Big)
  unfolding lookup
  overload_in types none = none
  overload_in types (some m) = lookup types m.overloads

  -- contract[name] and contract[name][types]
  unfoldable pub main_of : List (Text × Member Big) → Text → Option (SolidityFunction Big)
  unfolding lookup
  main_of contract name = Option.map (λ m. m.main) (lookup name contract)

  unfoldable pub overload_of :
      List (Text × Member Big) → Text → Text → Option (SolidityFunction Big)
  unfolding overload_in
  overload_of contract name types = overload_in types (lookup name contract)

  abbrev first_of : Option (SolidityFunction Big) → SolidityFunction Big → SolidityFunction Big
  first_of none f = f
  first_of (some g) f = g

  overloads-member_or :
      (o : Option (Member Big)) (f : SolidityFunction Big) (types : Text)
      → lookup types (member_or o f).overloads ≡ overload_in types o
  unfolding lookup overload_in
  overloads-member_or none f types = refl
  overloads-member_or (some m) f types = refl

  main-member_or :
      (o : Option (Member Big)) (f : SolidityFunction Big)
      → (member_or o f).main ≡ first_of (Option.map (λ m. m.main) o) f
  main-member_or none f = refl
  main-member_or (some m) f = refl

  -- An attached function is found under its name and the types of its inputs, and the others stay
  -- where they were; by its name alone it is found if no function had that name before.
  pub attach_to_contract_lem :
      (contract : List (Text × Member Big)) (f : SolidityFunction Big) (name types : Text)
      → (overload_of (attach_to_contract contract f) name types ≡ (
          if text_eq (display_name f) name && text_eq (type_name f) types
          then some f
          else overload_of contract name types))
        × (main_of (attach_to_contract contract f) name ≡ (
            if text_eq (display_name f) name
            then some (first_of (main_of contract name) f)
            else main_of contract name))
  unfolding attach_to_contract overload_of main_of overload_in
  attach_to_contract_lem contract f name types =
      let m = member_or (lookup (display_name f) contract) f in
      let m' : Member Big = record {
        main = m.main;
        overloads = insert (type_name f) f m.overloads;
      } in
      let found = lookup-insert (display_name f) name m' contract in
      elim (Bool-cases (text_eq (display_name f) name)) [
        | inl same ↦
            let e : display_name f ≡ name = (text_eq_iff (display_name f) name).0 same in
            (
              ap (overload_in types) found
                  ∙ rw same (
                      lookup-insert (type_name f) types f m.overloads
                      ∙ rw (overloads-member_or (lookup (display_name f) contract) f types, e)
                          refl),
              ap (Option.map (λ n. n.main)) found
                  ∙ rw same (
                      ap some (main-member_or (lookup (display_name f) contract) f)
                      ∙ ap (λ n. some (first_of (main_of contract n) f)) e),
            )
        | inr other ↦ (
          ap (overload_in types) found ∙ rw other refl,
          ap (Option.map (λ n. n.main)) found ∙ rw other refl,
        )
      ]
