-- ===== src/Processor/Apply.antt =====
-- The pools that src/collector/event_processor.rs applies a batch to, against the logs of each
-- pool in their order.
use evm_dex_pool.Base.{
  All, ℕ, ◌==◌, if◌then◌else◌, List, [], ◌∷◌, ◌≡◌, refl, ap, ◌∙◌, Option, none, some, arith, ok,
  Returns, Option-cases, inl, inr,
}
use evm_dex_pool.BTreeMap
use evm_dex_pool.BTreeMap.{BTreeMap}
use evm_dex_pool.BTreeMap.Lookup.{get-insert, get_below}
use evm_dex_pool.Chain.{Log}
use evm_dex_pool.Registry.{PoolInterface, PoolRegistry, get_pool, store}
use evm_dex_pool.Processor.{
  group_at, group_by_pool, apply_one, apply_group, apply_groups, apply_events_to_registry,
}
use evm_dex_pool.Processor.Groups.{
  logs_of, HasHash, group_at-logs_of, group_by_pool-IsSorted, group_by_pool-All,
}

module _ {P : Type 0} (pools : PoolInterface P) where
  -- A pool after its logs, whatever errors they return.
  abbrev pub after_logs : List Log → P → P
  after_logs [] pool = pool
  after_logs (log ∷ logs) pool = after_logs logs (pools.apply_log pool log).0

  -- What the logs make of the pool at an address.
  abbrev pub updated : List Log → Option P → Option P
  updated logs none = none
  updated logs (some pool) = some (after_logs logs pool)

  pub apply_one-eq :
      (pool : P) (log : Log) (h : ℕ)
      → log.transaction_hash ≡ some h
      → apply_one pools pool log ≡ ok (pools.apply_log pool log).0
  unfolding apply_one
  apply_one-eq pool log h e = rw e (ground arith)

  apply_group-eq :
      (logs : List Log) (pool : P)
      → All HasHash logs
      → apply_group pools pool logs ≡ ok (after_logs logs pool)
  unfolding apply_group
  apply_group-eq [] pool hs = refl
  apply_group-eq (log ∷ logs) pool ((h, e), hs) =
      rw (apply_one-eq pool log h e) (apply_group-eq logs (pools.apply_log pool log).0 hs)

  -- Every pool has its logs applied in their order, and nothing else of the registry changes.
  pub record IsApplied (r : PoolRegistry P) (logs_at : ℕ → List Log) (r' : PoolRegistry P)
      : Type 0 where
    pub pools_are : (a : ℕ) → get_pool r' a ≡ updated (logs_at a) (get_pool r a)
    pub cursor_is : r'.last_processed_block ≡ r.last_processed_block
    pub tracking_is : r'.dynamic_fee_addresses ≡ r.dynamic_fee_addresses

  -- The pool of one address updated, and then those of the rest.
  pub store-IsApplied :
      (r r' : PoolRegistry P) (address : ℕ) (pool : P) (logs : List Log) (rest at : ℕ → List Log)
      → get_pool r address ≡ some pool
      → rest address ≡ []
      → ((a : ℕ) → at a ≡ (if a == address then logs else rest a))
      → IsApplied (store r address (after_logs logs pool)) rest r'
      → IsApplied r at r'
  unfolding get_pool store
  store-IsApplied r r' address pool logs rest at found own split t = record {
    pools_are = λ a. ground (
      arith,
      found,
      own,
      split a,
      t.pools_are a,
      get-insert a address (after_logs logs pool) r.by_address,
    );
    cursor_is = t.cursor_is;
    tracking_is = t.tracking_is;
  }

  pub skip-IsApplied :
      (r r' : PoolRegistry P) (address : ℕ) (logs : List Log) (rest at : ℕ → List Log)
      → get_pool r address ≡ none
      → ((a : ℕ) → at a ≡ (if a == address then logs else rest a))
      → IsApplied r rest r'
      → IsApplied r at r'
  skip-IsApplied r r' address logs rest at missing split t = record {
    pools_are = λ a. ground (arith, missing, split a, t.pools_are a);
    cursor_is = t.cursor_is;
    tracking_is = t.tracking_is;
  }

  apply_groups-IsApplied :
      (groups : BTreeMap (List Log)) (r : PoolRegistry P)
      → BTreeMap.IsSorted groups
      → BTreeMap.Every (λ _ logs. All HasHash logs) groups
      → Returns (apply_groups pools r groups) (IsApplied r (λ a. group_at a groups))
  unfolding apply_groups group_at BTreeMap.get
  apply_groups-IsApplied [] r s hs =
      (r, refl, record { pools_are = λ a. ground arith; cursor_is = refl; tracking_is = refl })
  apply_groups-IsApplied ((address, logs) ∷ groups) r s (h, hs) =
      elim (Option-cases (get_pool r address)) [
        | inl missing ↦
            let (r', e, t) = apply_groups-IsApplied groups r s.1 hs in
            rw (missing, apply_groups)
              (
                r',
                e,
                skip-IsApplied r r' address logs (λ a. group_at a groups) _ missing
                    (λ a. ground arith) t,
              )
        | inr (pool, found) ↦
            let (r', e, t) =
              apply_groups-IsApplied groups (store r address (after_logs logs pool)) s.1 hs in
            rw (found, apply_groups, apply_group-eq logs pool h)
              (
                r',
                e,
                store-IsApplied r r' address pool logs (λ a. group_at a groups) _ found
                    (rw (get_below address groups s.0, group_at) refl) (λ a. ground arith) t,
              )
      ]

  -- Applying a batch to the registry does not panic where every log has a transaction hash. Every
  -- pool then has the logs of its address applied in the order of the batch, and the cursor and the
  -- tracking are as before.
  pub apply_events-IsApplied :
      (r : PoolRegistry P) (events : List Log)
      → All HasHash events
      → Returns (apply_events_to_registry pools r events) (IsApplied r (λ a. logs_of a events))
  unfolding apply_events_to_registry
  apply_events-IsApplied r events hs =
      let (r', e, t) =
        apply_groups-IsApplied (group_by_pool [] events) r (group_by_pool-IsSorted [] events tt)
          (group_by_pool-All HasHash [] events tt hs) in
      (
        r',
        e,
        record {
          pools_are = λ a.
              t.pools_are a
              ∙ ap (λ (logs : List Log). updated logs (get_pool r a)) (group_at-logs_of a events);
          cursor_is = t.cursor_is;
          tracking_is = t.tracking_is;
        },
      )
