-- ===== src/Registry/Tracking.antt =====
-- Which pools of src/registry.rs the fee reader tracks.
use evm_dex_pool.Base.{
  ℕ, Bool, true, false, Bool-cases, List, [], ◌∷◌, none, some, ◌≡◌, arith, Option-cases, inl, inr,
}
use evm_dex_pool.BTreeMap
use evm_dex_pool.BTreeMap.{BTreeMap}
use evm_dex_pool.BTreeMap.Lookup.{get-insert, get-remove}
use evm_dex_pool.BTreeMap.Order.{insert-IsSorted, remove-IsSorted}
use evm_dex_pool.Registry.{
  PoolInterface, PoolRegistry, new, store, add_pool, remove_pool, add_dynamic_fee_address,
  remove_dynamic_fee_address,
}

abbrev pub tracked : ℕ → BTreeMap (Unit {0}) → Bool
tracked a tracking = elim (BTreeMap.get a tracking) [ none ↦ false | some _ ↦ true ]

module _ {P : Type 0} (pools : PoolInterface P) where
  -- Every address that is tracked is that of a pool, and every pool whose fee is to be read is
  -- tracked.
  pub record AreTracked (by_address : BTreeMap P) (tracking : BTreeMap (Unit {0})) : Type 0 where
    pub pools_sorted : BTreeMap.IsSorted by_address
    pub tracked_sorted : BTreeMap.IsSorted tracking
    pub known : (a : ℕ) → tracked a tracking ≡ true → (p : P) × (BTreeMap.get a by_address ≡ some p)
    pub covered :
        (a : ℕ) (p : P)
        → BTreeMap.get a by_address ≡ some p
        → pools.fee_needs_reading p ≡ true
        → tracked a tracking ≡ true

  abbrev pub IsTracked : PoolRegistry P → Type 0
  IsTracked r = AreTracked r.by_address r.dynamic_fee_addresses

  module _ (m : BTreeMap P) (d : BTreeMap (Unit {0})) (t : AreTracked m d) (address : ℕ) where
    insert_both :
        (pool : P) → AreTracked (BTreeMap.insert address pool m) (BTreeMap.insert address tt d)
    insert_both pool = record {
      pools_sorted = insert-IsSorted address pool m t.pools_sorted;
      tracked_sorted = insert-IsSorted address tt d t.tracked_sorted;
      known =
          λ a h. ground (arith, get-insert a address pool m, get-insert a address tt d, t.known a);
      covered = λ a p g n.
          ground (arith, get-insert a address pool m, get-insert a address tt d, t.covered a p);
    }

    insert_pool :
        (pool : P)
        → pools.fee_needs_reading pool ≡ false
        → AreTracked (BTreeMap.insert address pool m) d
    insert_pool pool keeps = record {
      pools_sorted = insert-IsSorted address pool m t.pools_sorted;
      tracked_sorted = t.tracked_sorted;
      known = λ a h. ground (arith, get-insert a address pool m, t.known a);
      covered = λ a p g n. ground (arith, get-insert a address pool m, t.covered a p);
    }

    remove_both : AreTracked (BTreeMap.remove address m) (BTreeMap.remove address d)
    remove_both = record {
      pools_sorted = remove-IsSorted address m t.pools_sorted;
      tracked_sorted = remove-IsSorted address d t.tracked_sorted;
      known = λ a h. ground (
        arith,
        get-remove a address m t.pools_sorted,
        get-remove a address d t.tracked_sorted,
        t.known a,
      );
      covered = λ a p g n. ground (
        arith,
        get-remove a address m t.pools_sorted,
        get-remove a address d t.tracked_sorted,
        t.covered a p,
      );
    }

  add_pool-IsTracked :
      (r : PoolRegistry P) (pool : P) → IsTracked r → IsTracked (add_pool pools r pool)
  unfolding add_pool store add_dynamic_fee_address
  add_pool-IsTracked r pool t = elim (Bool-cases (pools.fee_needs_reading pool)) [
    | inl reads ↦
        rw reads (insert_both r.by_address r.dynamic_fee_addresses t (pools.address pool) pool)
    | inr keeps ↦
        rw keeps
          (insert_pool r.by_address r.dynamic_fee_addresses t (pools.address pool) pool keeps)
  ]

  remove_pool-IsTracked :
      (r : PoolRegistry P) (address : ℕ) → IsTracked r → IsTracked (remove_pool r address).0
  unfolding remove_pool remove_dynamic_fee_address
  remove_pool-IsTracked r address t = elim (Option-cases (BTreeMap.get address r.by_address)) [
    | inl missing ↦ rw (missing, remove_pool) t
    | inr (pool, found) ↦
        rw (found, remove_pool) (remove_both r.by_address r.dynamic_fee_addresses t address)
  ]

  -- The calls that change which pools there are.
  pub data Change : Type 0 where
    added : P → Change
    dropped : ℕ → Change

  unfoldable pub change : PoolRegistry P → Change → PoolRegistry P
  change r (added pool) = add_pool pools r pool
  change r (dropped address) = (remove_pool r address).0

  unfoldable pub changed : PoolRegistry P → List Change → PoolRegistry P
  unfolding change
  changed r [] = r
  changed r (c ∷ cs) = changed (change r c) cs

  change-IsTracked : (r : PoolRegistry P) (c : Change) → IsTracked r → IsTracked (change r c)
  unfolding change
  change-IsTracked r (added pool) t = add_pool-IsTracked r pool t
  change-IsTracked r (dropped address) t = remove_pool-IsTracked r address t

  changed-keeps : (r : PoolRegistry P) (cs : List Change) → IsTracked r → IsTracked (changed r cs)
  unfolding changed
  changed-keeps r [] t = t
  changed-keeps r (c ∷ cs) t = changed-keeps (change r c) cs (change-IsTracked r c t)

  new-IsTracked : (network_id : ℕ) → IsTracked (new network_id)
  unfolding new BTreeMap.get
  new-IsTracked network_id = record {
    pools_sorted = tt;
    tracked_sorted = tt;
    known = λ a h. absurd (ground arith);
    covered = λ a p g n. absurd (ground arith);
  }

  -- After any sequence of pools added to and removed from a new registry, every address that is
  -- tracked for the fee reader is that of a pool, and every pool whose fee needs reading is
  -- tracked.
  pub changed-IsTracked :
      (network_id : ℕ) (cs : List Change) → IsTracked (changed (new network_id) cs)
  changed-IsTracked network_id cs = changed-keeps (new network_id) cs (new-IsTracked network_id)
