-- ===== src/BTreeMap/Total.antt =====
-- Sums over the entries of a map, after an insertion and a removal.
use evm_dex_pool.Base.{ℕ, ◌+◌, ◌<◌, ◌≡◌, [], ◌∷◌, Option, none, some, arith}
use evm_dex_pool.BTreeMap.{BTreeMap, get, insert, remove, Every, IsSorted}
use evm_dex_pool.BTreeMap.Order.{Every-imp}
use evm_dex_pool.BTreeMap.Lookup.{get_below}
use evm_dex_pool.BTreeMap.Range.{total}

get_above {ℓ} :
    {V : Type ℓ} (k j : ℕ) (m : BTreeMap V) → Every (λ i _. j < i) m → k < j → get k m ≡ none
get_above k j m a lt =
    get_below k m (Every-imp {P = λ i _. j < i} {Q = λ i _. k < i} (λ i _ l. omega arith) m a)

module _ {ℓ} {V : Type ℓ} (f : V → ℕ) where
  abbrev pub at : Option V → ℕ
  at none = 0
  at (some v) = f v

  pub total-insert :
      (k : ℕ) (v : V) (m : BTreeMap V)
      → IsSorted m
      → total (λ _. f) (insert k v m) + at (get k m) ≡ total (λ _. f) m + f v
  unfolding total insert get
  total-insert k v [] s = ground arith
  total-insert k v ((j, w) ∷ m) s =
      ground (arith, total-insert k v m s.1, get_below j m s.0, get_above k j m s.0)

  pub total-remove :
      (k : ℕ) (m : BTreeMap V) → total (λ _. f) (remove k m) + at (get k m) ≡ total (λ _. f) m
  unfolding total remove get
  total-remove k [] = ground arith
  total-remove k ((j, w) ∷ m) = ground (arith, total-remove k m)
