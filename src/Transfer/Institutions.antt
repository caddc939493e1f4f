-- ===== src/Transfer/Institutions.antt =====
-- transfer.js of src/console/jsre/deps/web3.js: transfers to clients of institutions.
use ultron.Prelude.{ℕ, ◌≡◌, ◌≤◌, refl, ap, ◌∙◌, true, false, Option, some, arith, length}
use ultron.Text.{Text, all}
use ultron.Manager.{Manager}
use ultron.Iban.{
  Iban, create_indirect, is_valid, is_direct, is_indirect, institution, client, is_alphanumeric,
}
use ultron.Iban.Validity.{create_indirect_lem}
use ultron.Value.{Value}
use ultron.Messages.{Runtime, Config}
use ultron.Transfer.{deposit, by_kind, transfer}

indirect-is_direct : (i : Iban) → is_indirect i ≡ true → is_direct i ≡ false
unfolding is_indirect is_direct
indirect-is_direct i h = ground arith

module _ (rt : Runtime) (config : Config rt.big_number.Big) where
  open rt.big_number use {Big}

  transfer-indirect :
      (rm : Manager) (fuel : ℕ) (from value : Value Big) (callback : Option ℕ) (i : Iban)
      → is_valid fuel i ≡ some true
      → is_indirect i ≡ true
      → transfer rt config rm fuel from i.iban value callback
        ≡ some (deposit (institution i) (client i) from value callback)
  unfolding transfer by_kind
  transfer-indirect rm fuel from value callback i v h =
      rw (v, transfer, indirect-is_direct i h, by_kind) refl

  -- A transfer to the indirect number that is made of an institution of four and a client of nine
  -- capital letters and digits is a deposit for that client at that institution, of the same value
  -- from the same sender.
  pub transfer-create_indirect :
      (rm : Manager) (fuel : ℕ) (from value : Value Big) (callback : Option ℕ) (inst id : Text)
      → all is_alphanumeric inst ≡ true
      → all is_alphanumeric id ≡ true
      → length inst ≡ 4
      → length id ≡ 9
      → 38 ≤ fuel
      → (i : Iban) × (create_indirect fuel inst id ≡ some i)
        × (transfer rt config rm fuel from i.iban value callback
            ≡ some (deposit inst id from value callback))
  transfer-create_indirect rm fuel from value callback inst id p q m n enough =
      let (i, made, valid, indirect, at_inst, at_client) =
        create_indirect_lem fuel inst id p q m n enough in
      (
        i,
        made,
        transfer-indirect rm fuel from value callback i valid indirect
            ∙ ap (λ s. some (deposit s (client i) from value callback)) at_inst
            ∙ ap (λ s. some (deposit inst s from value callback)) at_client,
      )
