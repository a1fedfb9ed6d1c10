-- ===== src/Queue/RecentMap.antt =====
-- The `HashMap<(TxHash, u64), Log>` of src/collector/event_queue.rs, as the library documents its
-- operations: one entry for a key. The list is in the order of the insertions.
use evm_dex_pool.Base.{
  ℕ, suc, Bool, true, false, ◌==◌, ◌&&◌, if◌then◌else◌, List, [], ◌∷◌, ◌++◌, ◌≡◌, refl, arith, ap,
  length,
}

-- `(TxHash, u64)`
abbrev pub Key : Type 0
Key = ℕ × ℕ

abbrev pub key_eq : Key → Key → Bool
key_eq k j = k.0 == j.0 && k.1 == j.1

abbrev pub Recent {ℓ} : Type ℓ → Type ℓ
Recent V = List (Key × V)

module _ {ℓ} {V : Type ℓ} where
  unfoldable pub contains_key : Key → Recent V → Bool
  contains_key key [] = false
  contains_key key (e ∷ m) = if key_eq key e.0 then true else contains_key key m

  unfoldable pub insert : Key → V → Recent V → Recent V
  insert key v [] = (key, v) ∷ []
  insert key v (e ∷ m) = if key_eq key e.0 then (key, v) ∷ m else e ∷ insert key v m

  unfoldable pub remove : Key → Recent V → Recent V
  remove key [] = []
  remove key (e ∷ m) = if key_eq key e.0 then m else e ∷ remove key m

  abbrev pub keys : Recent V → List Key
  keys [] = []
  keys (e ∷ m) = e.0 ∷ keys m

pub key_eq_refl : (k : Key) → key_eq k k ≡ true
key_eq_refl k = ground arith

-- Membership by the map's own comparison.
abbrev pub known : Key → List Key → Bool
known key [] = false
known key (k ∷ ks) = if key_eq key k then true else known key ks

abbrev pub Distinct : List Key → Type 0
Distinct [] = Unit
Distinct (k ∷ ks) = (known k ks ≡ false) × Distinct ks

pub known-append :
    (key k : Key) (ks : List Key)
    → known key (ks ++ (k ∷ [])) ≡ (if known key ks then true else key_eq key k)
known-append key k [] = ground arith
known-append key k (j ∷ ks) = ground (arith, known-append key k ks)

pub Distinct-append :
    (key : Key) (ks : List Key) → known key ks ≡ false → Distinct ks → Distinct (ks ++ (key ∷ []))
Distinct-append key [] new d = (refl, tt)
Distinct-append key (k ∷ ks) new d = ground (arith, Distinct-append key ks, known-append k key ks)

module _ {ℓ} {V : Type ℓ} where
  pub contains_key-keys : (key : Key) (m : Recent V) → contains_key key m ≡ known key (keys m)
  unfolding contains_key
  contains_key-keys key [] = refl
  contains_key-keys key (e ∷ m) = ground (arith, contains_key-keys key m)

  pub insert-keys :
      (key : Key) (v : V) (m : Recent V)
      → known key (keys m) ≡ false
      → keys (insert key v m) ≡ keys m ++ (key ∷ [])
  unfolding insert
  insert-keys key v [] new = refl
  insert-keys key v (e ∷ m) new = ground (arith, insert-keys key v m)

  pub remove-first :
      (key : Key) (ks : List Key) (m : Recent V) → keys m ≡ key ∷ ks → keys (remove key m) ≡ ks
  unfolding remove
  remove-first key ks [] h = absurd (ground arith)
  remove-first key ks (e ∷ m) h = ground (arith, key_eq_refl key)

  pub keys-length : (m : Recent V) → length (keys m) ≡ length m
  keys-length [] = refl
  keys-length (e ∷ m) = ap suc (keys-length m)
