-- ===== src/Value/Objects.antt =====
-- What is read from objects, as src/console/jsre/deps/web3.js sets and reads properties.
use ultron.Prelude.{◌≡◌, refl, ◌∙◌, false, arith, if◌then◌else◌}
use ultron.Text.{Text, text_eq, text_eq_iff, text_eq_refl}
use ultron.Value.{Value, Fields, end, field, get, put}

module _ {B : Type 0} where
  pub get-put :
      (key j : Text) (v : Value B) (fs : Fields B)
      → get j (put key v fs) ≡ (if text_eq key j then v else get j fs)
  unfolding get put
  get-put key j v end = refl
  get-put key j v (field k w rest) =
      ground (arith, text_eq_iff k key, text_eq_iff k j, text_eq_iff key j, get-put key j v rest)

  pub get-put_other :
      (j key : Text) (v : Value B) (fs : Fields B)
      → text_eq key j ≡ false
      → get j (put key v fs) ≡ get j fs
  get-put_other j key v fs h = get-put key j v fs ∙ rw h refl

  pub get-put_self : (key : Text) (v : Value B) (fs : Fields B) → get key (put key v fs) ≡ v
  get-put_self key v fs = get-put key key v fs ∙ rw (text_eq_refl key) refl
