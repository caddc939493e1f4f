-- ===== src/Text/Tables.antt =====
-- Facts on small numbers by running through all of them.
use ultron.Prelude.{ℕ, zero, suc, ◌<◌, ◌≡◌, Bool, true, List, [], ◌∷◌, arith}
use ultron.Text.{all}

-- The numbers under a bound, the greatest first.
unfoldable pub numbers_under : ℕ → List ℕ
numbers_under zero = []
numbers_under (suc top) = top ∷ numbers_under top

-- A table that was run through speaks of each of its entries.
pub table_entry :
    (test : ℕ → Bool) (r top : ℕ) → r < top → all test (numbers_under top) ≡ true → test r ≡ true
unfolding numbers_under
table_entry test r zero under table = absurd (omega arith)
table_entry test r (suc top) under table = ground (arith, table_entry test r top)
