-- ===== src/Processor/Pending.antt =====
-- `process_pending_events` of src/collector/event_processor.rs: the clones after the pending block.
use evm_dex_pool.Base.{
  All, ℕ, true, ◌==◌, if◌then◌else◌, List, [], ◌∷◌, ◌++◌, ◌≡◌, refl, ap, sym, ◌∙◌, none, some,
  arith, Returns, Bool-cases, Option-cases, inl, inr,
}
use evm_dex_pool.Base.Search.{contains}
use evm_dex_pool.BTreeMap
use evm_dex_pool.BTreeMap.{BTreeMap}
use evm_dex_pool.BTreeMap.Lookup.{get-insert}
use evm_dex_pool.Chain.{Log}
use evm_dex_pool.Registry.{PoolInterface, PoolRegistry, get_pool}
use evm_dex_pool.Processor.{EventProcessor, cloned, pending_loop, process_pending_events}
use evm_dex_pool.Processor.Groups.{logs_of, IsMined}
use evm_dex_pool.Processor.Apply.{updated}
use evm_dex_pool.Processor.Sent.{swaps_of, is_swap-topic, send_one, swaps_of-cons}

module _ {P : Type 0} (pools : PoolInterface P) (self : EventProcessor) (r : PoolRegistry P) where
  -- The logs of the pools that the registry has.
  abbrev pub of_pools : List Log → List Log
  of_pools [] = []
  of_pools (log ∷ logs) = elim (get_pool r log.address) [
    | none ↦ of_pools logs
    | some _ ↦ log ∷ of_pools logs
  ]

  -- A pool has a clone only where the registry has the pool.
  abbrev AreCloned : BTreeMap P → Type 0
  AreCloned modified = (a : ℕ) → get_pool r a ≡ none → BTreeMap.get a modified ≡ none

  cloned-insert :
      (a address : ℕ) (pool : P) (modified : BTreeMap P)
      → cloned r (BTreeMap.insert address pool modified) a
        ≡ (if a == address then some pool else cloned r modified a)
  unfolding cloned
  cloned-insert a address pool modified = ground (arith, get-insert a address pool modified)

  AreCloned-insert :
      (address : ℕ) (pool clone : P) (modified : BTreeMap P)
      → cloned r modified address ≡ some pool
      → AreCloned modified
      → AreCloned (BTreeMap.insert address clone modified)
  unfolding cloned
  AreCloned-insert address pool clone modified found only a none_there =
      ground (arith, get-insert a address clone modified, only a none_there)

  of_pools-some :
      (log : Log) (logs : List Log) (pool : P) (modified : BTreeMap P)
      → cloned r modified log.address ≡ some pool
      → AreCloned modified
      → of_pools (log ∷ logs) ≡ log ∷ of_pools logs
  unfolding cloned
  of_pools-some log logs pool modified found only = ground (arith, only log.address)

  of_pools-none :
      (log : Log) (logs : List Log) (modified : BTreeMap P)
      → cloned r modified log.address ≡ none
      → of_pools (log ∷ logs) ≡ of_pools logs
  unfolding cloned
  of_pools-none log logs modified missing = ground arith

  -- What a consumer finds of each pool, and what it is sent.
  abbrev IsSpeculated : BTreeMap P → List Log → BTreeMap P × List Log → Type 0
  IsSpeculated modified events (clones, sent) =
      ((a : ℕ) → cloned r clones a ≡ updated pools (logs_of a events) (cloned r modified a))
      × (sent ≡ swaps_of self (of_pools events))

  pending_loop-IsSpeculated :
      (events : List Log) (modified : BTreeMap P)
      → self.swap_event_tx ≡ true
      → AreCloned modified
      → All IsMined events
      → Returns (pending_loop pools self r modified events) (IsSpeculated modified events)
  unfolding pending_loop
  pending_loop-IsSpeculated [] modified on only mined =
      ((modified, []), refl, ((λ a. ground arith), refl))
  pending_loop-IsSpeculated (log ∷ logs) modified on only (h, hs) =
      elim (Option-cases (cloned r modified log.address)) [
        | inl missing ↦
            let ((clones, sent), e, t) = pending_loop-IsSpeculated logs modified on only hs in
            rw (missing, pending_loop, e)
              (
                (clones, sent),
                refl,
                (
                  (λ a. ground (arith, t.0 a, missing)),
                  t.1 ∙ ap (swaps_of self) (sym (of_pools-none log logs modified missing)),
                ),
              )
        | inr (pool, found) ↦
            let clone = (pools.apply_log pool log).0 in
            let ((clones, sent), e, t) =
              pending_loop-IsSpeculated logs (BTreeMap.insert log.address clone modified) on
                (AreCloned-insert log.address pool clone modified found only) hs in
            let swap = contains h.2.0 self.profitable_topics in
            rw
              (
                found,
                pending_loop,
                is_swap-topic self.profitable_topics log h.2.0 h.2.1,
                send_one swap log h,
                e,
              )
              (
                (clones, (if swap then log ∷ [] else []) ++ sent),
                refl,
                (
                  (λ a. ground (arith, t.0 a, found, cloned-insert a log.address clone modified)),
                  ap (◌++◌ (if swap then log ∷ [] else [])) t.1
                      ∙ sym (swaps_of-cons self log (of_pools logs) h.2.0 on h.2.1)
                      ∙ ap (swaps_of self) (sym (of_pools-some log logs pool modified found only)),
                ),
              )
      ]

  -- For a processor with a consumer, processing a pending block of mined logs does not panic. What
  -- a consumer finds of each pool, its clone or else the pool of the registry, is the pool with the
  -- logs of its address applied in their order, and it is sent the profitable logs of the pools of
  -- the registry in their order.
  pub process_pending-IsSpeculated :
      (events : List Log)
      → self.swap_event_tx ≡ true
      → All IsMined events
      → Returns (process_pending_events pools self r events) (λ result.
        ((a : ℕ) → cloned r result.0 a ≡ updated pools (logs_of a events) (get_pool r a))
        × (result.1 ≡ swaps_of self (of_pools events)))
  unfolding process_pending_events cloned BTreeMap.get
  process_pending-IsSpeculated events on mined =
      let (result, e, t) = pending_loop-IsSpeculated events [] on (λ a h. refl) mined in
      simp on (result, e, t)

  -- With or without a consumer.
  pub process_pending-Returns :
      (events : List Log)
      → All IsMined events
      → Returns (process_pending_events pools self r events) (λ result. Unit {0})
  unfolding process_pending_events
  process_pending-Returns events mined = elim (Bool-cases self.swap_event_tx) [
    | inl on ↦ let (result, e, t) = process_pending-IsSpeculated events on mined in (result, e, tt)
    | inr off ↦ simp off (([], []), refl, tt)
  ]
