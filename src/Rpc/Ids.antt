-- ===== src/Rpc/Ids.antt =====
-- The ids of a batch are the numbers behind the counter, in order.
use ultron.Prelude.{ℕ, zero, suc, ◌+◌, ◌≡◌, refl, ap, List, [], ◌∷◌, map, arith, length}
use ultron.Rpc.{Request, given, to_batch_payload}

-- n + 1, ..., n + k
abbrev pub count_from : ℕ → ℕ → List ℕ
count_from n zero = []
count_from n (suc k) = (n + 1) ∷ count_from (n + 1) k

-- A batch payload holds each request, in order, under consecutive ids that the counter has not
-- given before, and the counter ends at the last of them.
pub to_batch_payload_lem :
    (n : ℕ) (rs : List Request)
    → (map (λ p. p.id) (to_batch_payload n rs).0 ≡ count_from n (length rs))
      × (map (λ p. p.method) (to_batch_payload n rs).0 ≡ map (λ r. r.method) rs)
      × (map (λ p. p.params) (to_batch_payload n rs).0 ≡ map (λ r. given r.params) rs)
      × ((to_batch_payload n rs).1 ≡ n + length rs)
unfolding to_batch_payload
to_batch_payload_lem n [] = (refl, refl, refl, omega arith)
to_batch_payload_lem n (r ∷ rs) =
    let (ids, methods, params, last) = to_batch_payload_lem (n + 1) rs in
    (
      ap (λ t. (n + 1) ∷ t) ids,
      ap (λ t. r.method ∷ t) methods,
      ap (λ t. given r.params ∷ t) params,
      omega arith,
    )
