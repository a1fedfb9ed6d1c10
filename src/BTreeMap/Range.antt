-- ===== src/BTreeMap/Range.antt =====
-- The neighbours that the range queries find, and sums over the entries below or from a key.
use evm_dex_pool.Base.{
  ℕ, suc, ◌+◌, ◌≤◌, ◌<◌, ◌≡◌, refl, ◌⊎◌, ltb, leb, length, if◌then◌else◌, [], ◌∷◌, none, some,
  arith, Option-cases, inr, dec_lt,
}
use evm_dex_pool.BTreeMap.{BTreeMap, get, last_below, first_from, Every, IsSorted}
use evm_dex_pool.BTreeMap.Order.{Every-imp, get-Every}

module _ {ℓ} {V : Type ℓ} (f : ℕ → V → ℕ) where
  unfoldable pub total : BTreeMap V → ℕ
  total [] = 0
  total ((j, w) ∷ m) = f j w + total m

  unfoldable pub sum_below : ℕ → BTreeMap V → ℕ
  sum_below k [] = 0
  sum_below k ((j, w) ∷ m) = (if ltb j k then f j w else 0) + sum_below k m

  unfoldable pub sum_from : ℕ → BTreeMap V → ℕ
  sum_from k [] = 0
  sum_from k ((j, w) ∷ m) = (if leb k j then f j w else 0) + sum_from k m

  pub sum_below-le : (k : ℕ) (m : BTreeMap V) → sum_below k m ≤ total m
  unfolding sum_below total
  sum_below-le k [] = omega arith
  sum_below-le k ((j, w) ∷ m) = ground (arith, sum_below-le k m)

  pub sum_from-le : (k : ℕ) (m : BTreeMap V) → sum_from k m ≤ total m
  unfolding sum_from total
  sum_from-le k [] = omega arith
  sum_from-le k ((j, w) ∷ m) = ground (arith, sum_from-le k m)

  -- The two sums split the map, and one entry splits a sum.
  sum_split : (k : ℕ) (m : BTreeMap V) → sum_below k m + sum_from k m ≡ total m
  unfolding sum_from sum_below total
  sum_split k [] = omega arith
  sum_split k ((j, w) ∷ m) = ground (arith, sum_split k m)

  sum_below_above : (k : ℕ) (m : BTreeMap V) → Every (λ j _. k ≤ j) m → sum_below k m ≡ 0
  unfolding sum_below
  sum_below_above k [] a = refl
  sum_below_above k ((j, w) ∷ m) a = ground (arith, sum_below_above k m a.1)

  pub sum_below-get :
      (k : ℕ) (v : V) (m : BTreeMap V)
      → IsSorted m
      → get k m ≡ some v
      → sum_below (suc k) m ≡ f k v + sum_below k m
  unfolding sum_below get
  sum_below-get k v [] s h = absurd (ground arith)
  sum_below-get k v ((j, w) ∷ m) s h = ground (
    arith,
    sum_below-get k v m s.1,
    λ (e : k ≡ j).
        sum_below_above k m
          (Every-imp {P = λ i _. j < i} {Q = λ i _. k ≤ i} (λ i _ l. omega arith) m s.0),
    λ (e : k ≡ j).
        sum_below_above (suc k) m
          (Every-imp {P = λ i _. j < i} {Q = λ i _. suc k ≤ i} (λ i _ l. omega arith) m s.0),
  )

  pub sum_below-absent :
      (k : ℕ) (m : BTreeMap V) → get k m ≡ none → sum_below (suc k) m ≡ sum_below k m
  unfolding sum_below get
  sum_below-absent k [] h = refl
  sum_below-absent k ((j, w) ∷ m) h = ground (arith, sum_below-absent k m)

  pub sum_from-absent :
      (k : ℕ) (m : BTreeMap V) → get k m ≡ none → sum_from k m ≡ sum_from (suc k) m
  sum_from-absent k m h = omega (arith, sum_below-absent k m h, sum_split k m, sum_split (suc k) m)

  pub sum_from-get :
      (k : ℕ) (v : V) (m : BTreeMap V)
      → IsSorted m
      → get k m ≡ some v
      → sum_from k m ≡ f k v + sum_from (suc k) m
  sum_from-get k v m s h =
      omega (arith, sum_below-get k v m s h, sum_split k m, sum_split (suc k) m)

pub total-count {ℓ} : {V : Type ℓ} (m : BTreeMap V) → total (λ _ _. 1) m ≡ length m
unfolding total
total-count [] = refl
total-count ((j, w) ∷ m) = omega (arith, total-count m)

module _ {ℓ} {V : Type ℓ} where
  -- `last_below` answers `none` exactly when no key is below `k`.
  last_below-none :
      (k : ℕ) (m : BTreeMap V) → IsSorted m → last_below k m ≡ none → Every (λ j _. k ≤ j) m
  unfolding last_below
  last_below-none k [] s h = tt
  last_below-none k ((j, w) ∷ m) s h = elim (dec_lt j k) [
    | yes below ↦ absurd (ground (arith, Option-cases (last_below k m)))
    | no above ↦
        (omega arith, Every-imp {P = λ i _. j < i} {Q = λ i _. k ≤ i} (λ i _ l. omega arith) m s.0)
  ]

  -- Else it answers with the entry of the greatest key below `k`.
  pub last_below-some :
      (k j : ℕ) (v : V) (m : BTreeMap V)
      → IsSorted m
      → last_below k m ≡ some (j, v)
      → (j < k) × (get j m ≡ some v) × Every (λ i _. (i < suc j) ⊎ (k ≤ i)) m
  unfolding last_below get
  last_below-some k j v [] s h = absurd (ground arith)
  last_below-some k j v ((i, w) ∷ m) s h = ground (
    arith,
    last_below-some k j v m s.1,
    get-Every (λ x _. i < x) j v m s.0,
    λ (e : last_below k m ≡ none).
        Every-imp {P = λ x _. k ≤ x} {Q = λ x _. (x < suc j) ⊎ (k ≤ x)} (λ x _ l. inr l) m
          (last_below-none k m s.1 e),
  )

  first_from-none : (k : ℕ) (m : BTreeMap V) → first_from k m ≡ none → Every (λ j _. j < k) m
  unfolding first_from
  first_from-none k [] h = tt
  first_from-none k ((j, w) ∷ m) h = ground (arith, first_from-none k m)

  pub first_from-some :
      (k j : ℕ) (v : V) (m : BTreeMap V)
      → IsSorted m
      → first_from k m ≡ some (j, v)
      → (k ≤ j) × (get j m ≡ some v) × Every (λ i _. (i < k) ⊎ (j ≤ i)) m
  unfolding first_from get
  first_from-some k j v [] s h = absurd (ground arith)
  first_from-some k j v ((i, w) ∷ m) s h = ground (
    arith,
    first_from-some k j v m s.1,
    get-Every (λ x _. i < x) j v m s.0,
    λ (e : i ≡ j).
        Every-imp {P = λ x _. i < x} {Q = λ x _. (x < k) ⊎ (j ≤ x)} (λ x _ l. inr (omega arith)) m
          s.0,
  )

module _ {ℓ} {V : Type ℓ} (f : ℕ → V → ℕ) where
  -- A gap between two keys leaves the sum as it is.
  sum_below_gap :
      (a b : ℕ) (m : BTreeMap V)
      → a ≤ b
      → Every (λ i _. (i < a) ⊎ (b ≤ i)) m
      → sum_below f a m ≡ sum_below f b m
  unfolding sum_below
  sum_below_gap a b [] h e = refl
  sum_below_gap a b ((i, w) ∷ m) h e = ground (arith, sum_below_gap a b m h e.1)

  -- No key lies between the answer and the bound: the sums differ by that one entry.
  pub sum_below-last :
      (k j : ℕ) (v : V) (m : BTreeMap V)
      → IsSorted m
      → last_below k m ≡ some (j, v)
      → sum_below f k m ≡ f j v + sum_below f j m
  sum_below-last k j v m s h =
      let (below, found, gap) = last_below-some k j v m s h in
      omega (arith, sum_below-get f j v m s found, sum_below_gap (suc j) k m below gap)

  pub sum_from-first :
      (k j : ℕ) (v : V) (m : BTreeMap V)
      → IsSorted m
      → first_from k m ≡ some (j, v)
      → sum_from f k m ≡ f j v + sum_from f (suc j) m
  sum_from-first k j v m s h =
      let (from, found, gap) = first_from-some k j v m s h in
      omega (
        arith,
        sum_from-get f j v m s found,
        sum_below_gap k j m from gap,
        sum_split f k m,
        sum_split f j m,
      )

  -- Where there is no neighbour the sum is empty.
  pub sum_below-none :
      (k : ℕ) (m : BTreeMap V) → IsSorted m → last_below k m ≡ none → sum_below f k m ≡ 0
  sum_below-none k m s h = sum_below_above f k m (last_below-none k m s h)

  sum_from_below : (k : ℕ) (m : BTreeMap V) → Every (λ j _. j < k) m → sum_from f k m ≡ 0
  unfolding sum_from
  sum_from_below k [] a = refl
  sum_from_below k ((j, w) ∷ m) a = ground (arith, sum_from_below k m a.1)

  pub sum_from-none : (k : ℕ) (m : BTreeMap V) → first_from k m ≡ none → sum_from f k m ≡ 0
  sum_from-none k m h = sum_from_below k m (first_from-none k m h)
