-- ===== src/Processor/Confirmed.antt =====
-- `process_confirmed_events` of src/collector/event_processor.rs: the pools after a batch, and the
-- logs that are sent on.
use evm_dex_pool.Base.{
  All, All-append, ℕ, Bool, true, false, ◌==◌, if◌then◌else◌, List, [], ◌∷◌, ◌++◌, ◌≡◌, refl, none,
  some, arith, ok, Returns, Option-cases, inl, inr, ==_refl,
}
use evm_dex_pool.Base.Search.{contains, AreDistinct}
use mathlib.Core.List.{append-nil}
use evm_dex_pool.BTreeMap
use evm_dex_pool.BTreeMap.{BTreeMap}
use evm_dex_pool.BTreeMap.Lookup.{get-insert, get-remove}
use evm_dex_pool.BTreeMap.Order.{remove-IsSorted}
use evm_dex_pool.Chain.{Log}
use evm_dex_pool.Registry.{PoolInterface, PoolRegistry, get_pool, store}
use evm_dex_pool.Processor.{
  EventProcessor, group_by_pool, order_of, confirm_group, confirm_groups, process_confirmed_events,
}
use evm_dex_pool.Processor.Groups.{logs_of, logs_of-All, IsMined, group_by_pool-IsSorted}
use evm_dex_pool.Processor.Apply.{
  after_logs, apply_one-eq, IsApplied, store-IsApplied, skip-IsApplied,
}
use evm_dex_pool.Processor.Sent.{
  swaps_of, is_swap-chosen, send_swap_events-eq, swaps_of-All, logs_of-append, logs_of-swaps,
}
use evm_dex_pool.Processor.Order.{order_of-AreDistinct, listed_logs, left_all}

module _ {P : Type 0} (pools : PoolInterface P) (self : EventProcessor) where
  confirm_group-eq :
      (logs : List Log) (pool : P)
      → All IsMined logs
      → confirm_group pools self.swap_event_tx self.profitable_topics pool logs
        ≡ ok (after_logs pools logs pool, swaps_of self logs)
  unfolding confirm_group
  confirm_group-eq [] pool hs = refl
  confirm_group-eq (log ∷ logs) pool (h, hs) =
      rw
        (
          apply_one-eq pools pool log h.0.0 h.0.1,
          is_swap-chosen self.swap_event_tx self.profitable_topics log h.2,
          confirm_group-eq logs (pools.apply_log pool log).0 hs,
        )
        refl

  -- The logs of the addresses that are still to come.
  abbrev pub left : List Log → List ℕ → ℕ → List Log
  left events order a = if contains a order then logs_of a events else []

  abbrev sent_of : PoolRegistry P → (ℕ → List Log) → ℕ → List Log
  sent_of r at a = elim (get_pool r a) [ none ↦ [] | some _ ↦ swaps_of self (at a) ]

  -- The pools after the batch, and of each pool the logs that are sent.
  abbrev pub IsProcessed : PoolRegistry P → (ℕ → List Log) → PoolRegistry P × List Log → Type 0
  IsProcessed r at (r', swaps) =
      IsApplied pools r at r' × ((a : ℕ) → logs_of a swaps ≡ sent_of r at a) × All IsMined swaps

  module _ (events : List Log) (mined : All IsMined events) where
    left_split :
        (address : ℕ) (order : List ℕ) (a : ℕ)
        → left events (address ∷ order) a
          ≡ (if a == address then logs_of address events else left events order a)
    unfolding contains
    left_split address order a = ground arith

    full_rest :
        (address : ℕ) (order : List ℕ) (groups : BTreeMap (List Log))
        → BTreeMap.IsSorted groups
        → contains address order ≡ false
        → ((a : ℕ)
            → contains a (address ∷ order) ≡ true
            → BTreeMap.get a groups ≡ some (logs_of a events))
        → (a : ℕ) → contains a order ≡ true
        → BTreeMap.get a (BTreeMap.remove address groups) ≡ some (logs_of a events)
    unfolding contains
    full_rest address order groups s fresh full a h =
        ground (arith, get-remove a address groups s, full a)

    skip-IsProcessed :
        (address : ℕ) (order : List ℕ) (r : PoolRegistry P) (result : PoolRegistry P × List Log)
        → get_pool r address ≡ none
        → IsProcessed r (left events order) result
        → IsProcessed r (left events (address ∷ order)) result
    skip-IsProcessed address order r (r', swaps) missing (t, sent, hs) = (
      skip-IsApplied pools r r' address (logs_of address events) (left events order)
          (left events (address ∷ order)) missing (left_split address order) t,
      (λ a. ground (arith, sent a, missing, left_split address order a)),
      hs,
    )

    store-IsProcessed :
        (address : ℕ) (order : List ℕ) (r r' : PoolRegistry P) (pool : P) (swaps : List Log)
        → get_pool r address ≡ some pool
        → contains address order ≡ false
        → IsProcessed
            (store r address (after_logs pools (logs_of address events) pool))
            (left events order)
            (r', swaps)
        → IsProcessed r
            (left events (address ∷ order))
            (r', swaps_of self (logs_of address events) ++ swaps)
    unfolding get_pool store
    store-IsProcessed address order r r' pool swaps found fresh (t, sent, hs) = (
      store-IsApplied pools r r' address pool (logs_of address events) (left events order)
          (left events (address ∷ order)) found (rw fresh refl) (left_split address order) t,
      (λ a. ground (
        arith,
        sent a,
        found,
        fresh,
        left_split address order a,
        logs_of-append a (swaps_of self (logs_of address events)) swaps,
        logs_of-swaps self a address events,
        append-nil (swaps_of self (logs_of a events)),
        get-insert a address (after_logs pools (logs_of address events) pool) r.by_address,
      )),
      All-append IsMined (swaps_of self (logs_of address events)) swaps
          (swaps_of-All self (logs_of address events) (logs_of-All IsMined address events mined))
          hs,
    )

    confirm_groups-IsProcessed :
        (order : List ℕ) (groups : BTreeMap (List Log)) (r : PoolRegistry P)
        → BTreeMap.IsSorted groups
        → AreDistinct order
        → ((a : ℕ) → contains a order ≡ true → BTreeMap.get a groups ≡ some (logs_of a events))
        → Returns (confirm_groups pools self r order groups) (IsProcessed r (left events order))
    unfolding confirm_groups contains
    confirm_groups-IsProcessed [] groups r s d full = (
      (r, []),
      refl,
      (
        record { pools_are = λ a. ground arith; cursor_is = refl; tracking_is = refl },
        (λ a. ground arith),
        tt,
      ),
    )
    confirm_groups-IsProcessed (address ∷ order) groups r s d full =
        let rest = BTreeMap.remove address groups in
        let sorted = remove-IsSorted address groups s in
        let full' = full_rest address order groups s d.0 full in
        rw (full address (ground (arith, ==_refl address)), confirm_groups)
          (elim (Option-cases (get_pool r address)) [
            | inl missing ↦
                let ((r', swaps), e, t) =
                  confirm_groups-IsProcessed order rest r sorted d.1 full' in
                rw (missing, e)
                  ((r', swaps), refl, skip-IsProcessed address order r (r', swaps) missing t)
            | inr (pool, found) ↦
                let logs = logs_of address events in
                let ((r', swaps), e, t) =
                  confirm_groups-IsProcessed order rest
                    (store r address (after_logs pools logs pool)) sorted d.1 full' in
                rw (found, confirm_group-eq logs pool (logs_of-All IsMined address events mined), e)
                  (
                    (r', swaps_of self logs ++ swaps),
                    refl,
                    store-IsProcessed address order r r' pool swaps found d.0 t,
                  )
          ])

  swaps_of-none : self.swap_event_tx ≡ false → (logs : List Log) → swaps_of self logs ≡ []
  swaps_of-none off [] = refl
  swaps_of-none off (log ∷ logs) = rw off (swaps_of-none off logs)

  -- The logs that the last loop sends.
  delivered :
      (at : ℕ → List Log) (r r' : PoolRegistry P) (swaps : List Log) (tx : Bool)
      → self.swap_event_tx ≡ tx
      → IsProcessed r at (r', swaps)
      → IsProcessed r at (r', if tx then swaps else [])
  delivered at r r' swaps true on t = t
  delivered at r r' swaps false off (t, sent, hs) =
      (t, (λ a. ground (arith, swaps_of-none off (at a))), tt)

  same_logs :
      (at all : ℕ → List Log) (r : PoolRegistry P) (result : PoolRegistry P × List Log)
      → ((a : ℕ) → at a ≡ all a)
      → IsProcessed r at result
      → IsProcessed r all result
  same_logs at all r (r', swaps) same (t, sent, hs) = (
    record {
      pools_are = λ a. ground (arith, same a, t.pools_are a);
      cursor_is = t.cursor_is;
      tracking_is = t.tracking_is;
    },
    (λ a. ground (arith, same a, sent a)),
    hs,
  )

  -- Processing a confirmed batch of mined logs does not panic. Every pool of the registry then has
  -- the logs of its address applied in the order of the batch, the cursor and the tracking are as
  -- before, and of each pool of the registry those of its logs are sent on, in their order, whose
  -- topic is profitable, if there is a consumer.
  pub process_confirmed-IsProcessed :
      (r : PoolRegistry P) (events : List Log)
      → All IsMined events
      → Returns
          (process_confirmed_events pools self r events)
          (IsProcessed r (λ a. logs_of a events))
  unfolding process_confirmed_events
  process_confirmed-IsProcessed r events mined =
      let ((r', swaps), e, t) =
        confirm_groups-IsProcessed events mined (order_of [] events) (group_by_pool [] events) r
          (group_by_pool-IsSorted [] events tt) (order_of-AreDistinct [] events tt)
          (listed_logs events) in
      let (sent, s, hs) =
        delivered (left events (order_of [] events)) r r' swaps self.swap_event_tx refl t in
      rw (e, send_swap_events-eq (if self.swap_event_tx then swaps else []) hs)
        (
          (r', if self.swap_event_tx then swaps else []),
          refl,
          same_logs (left events (order_of [] events)) (λ a. logs_of a events) r
              (r', if self.swap_event_tx then swaps else []) (left_all events) (sent, s, hs),
        )
