-- ===== src/BTreeMap/Lookup.antt =====
-- What `get` finds after an insertion or a removal.
use evm_dex_pool.Base.{ℕ, ◌<◌, ◌≡◌, refl, ◌==◌, if◌then◌else◌, [], ◌∷◌, none, some, arith, ==_refl}
use evm_dex_pool.BTreeMap.{BTreeMap, get, insert, remove, Every, IsSorted}

module _ {ℓ} {V : Type ℓ} where
  pub get-insert :
      (j k : ℕ) (v : V) (m : BTreeMap V)
      → get j (insert k v m) ≡ (if j == k then some v else get j m)
  unfolding get insert
  get-insert j k v [] = refl
  get-insert j k v ((i, w) ∷ m) = ground (arith, get-insert j k v m)

  pub get_below : (j : ℕ) (m : BTreeMap V) → Every (λ i _. j < i) m → get j m ≡ none
  unfolding get
  get_below j [] a = refl
  get_below j ((i, w) ∷ m) a = ground (arith, get_below j m a.1)

  pub get-remove :
      (j k : ℕ) (m : BTreeMap V)
      → IsSorted m
      → get j (remove k m) ≡ (if j == k then none else get j m)
  unfolding get remove
  get-remove j k [] s = ground arith
  get-remove j k ((i, w) ∷ m) s = ground (arith, get-remove j k m s.1, get_below i m s.0)

  pub get_first : (k : ℕ) (v : V) (m : BTreeMap V) → get k ((k, v) ∷ m) ≡ some v
  unfolding get
  get_first k v m = rw (==_refl k) refl
