-- ===== src/BTreeMap/Order.antt =====
-- The operations keep the order of the keys and what holds of every entry.
use evm_dex_pool.Base.{ℕ, ◌<◌, ◌≡◌, [], ◌∷◌, some, arith}
use evm_dex_pool.BTreeMap.{BTreeMap, get, insert, remove, Every, IsSorted}

module _ {ℓ κ} {V : Type ℓ} (P : ℕ → V → Type κ) where
  pub insert-Every : (k : ℕ) (v : V) (m : BTreeMap V) → P k v → Every P m → Every P (insert k v m)
  unfolding insert
  insert-Every k v [] p a = (p, tt)
  insert-Every k v ((j, w) ∷ m) p a = ground (arith, insert-Every k v m p a.1)

  pub remove-Every : (k : ℕ) (m : BTreeMap V) → Every P m → Every P (remove k m)
  unfolding remove
  remove-Every k [] a = tt
  remove-Every k ((j, w) ∷ m) a = ground (arith, remove-Every k m a.1)

  -- Also where the inserted value does not satisfy it.
  pub remove-insert-Every :
      (k : ℕ) (v : V) (m : BTreeMap V) → Every P m → Every P (remove k (insert k v m))
  unfolding remove insert
  remove-insert-Every k v [] a = ground arith
  remove-insert-Every k v ((j, w) ∷ m) a = ground (arith, remove-insert-Every k v m a.1)

  pub get-Every : (k : ℕ) (v : V) (m : BTreeMap V) → Every P m → get k m ≡ some v → P k v
  unfolding get
  get-Every k v [] a h = absurd (ground arith)
  get-Every k v ((j, w) ∷ m) a h = ground (arith, get-Every k v m a.1)

module _ {ℓ} {V : Type ℓ} where
  pub Every-imp {κ μ} :
      {P : ℕ → V → Type κ} {Q : ℕ → V → Type μ}
      → ((k : ℕ) (v : V) → P k v → Q k v)
      → (m : BTreeMap V) → Every P m
      → Every Q m
  Every-imp f [] a = tt
  Every-imp f ((k, v) ∷ m) (p, a) = (f k v p, Every-imp f m a)

  pub insert-IsSorted : (k : ℕ) (v : V) (m : BTreeMap V) → IsSorted m → IsSorted (insert k v m)
  unfolding insert
  insert-IsSorted k v [] s = (tt, tt)
  insert-IsSorted k v ((j, w) ∷ m) s = ground (
    arith,
    insert-IsSorted k v m s.1,
    insert-Every (λ i _. j < i) k v m,
    λ (h : k < j). Every-imp {P = λ i _. j < i} {Q = λ i _. k < i} (λ i _ l. omega arith) m s.0,
  )

  pub remove-IsSorted : (k : ℕ) (m : BTreeMap V) → IsSorted m → IsSorted (remove k m)
  unfolding remove
  remove-IsSorted k [] s = tt
  remove-IsSorted k ((j, w) ∷ m) s =
      ground (arith, remove-IsSorted k m s.1, remove-Every (λ i _. j < i) k m s.0)
