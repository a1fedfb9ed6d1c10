-- ===== src/Processor/Groups.antt =====
-- The grouping of src/collector/event_processor.rs by pool.
use evm_dex_pool.Base.{
  ℕ, ◌==◌, if◌then◌else◌, List, [], ◌∷◌, ◌++◌, ◌≡◌, refl, sym, some, arith, All, All-append,
  Bool-cases, Option-cases, inl, inr,
}
use mathlib.Core.List.{append_assoc, append-nil}
use evm_dex_pool.BTreeMap
use evm_dex_pool.BTreeMap.{BTreeMap}
use evm_dex_pool.BTreeMap.Lookup.{get-insert}
use evm_dex_pool.BTreeMap.Order.{insert-IsSorted, insert-Every, get-Every}
use evm_dex_pool.Chain.{Log}
use evm_dex_pool.Processor.{group_at, push_log, group_by_pool}

-- The logs of one pool, in their order.
abbrev pub logs_of : ℕ → List Log → List Log
logs_of a [] = []
logs_of a (log ∷ logs) = if a == log.address then log ∷ logs_of a logs else logs_of a logs

group_at-push :
    (a : ℕ) (groups : BTreeMap (List Log)) (log : Log)
    → group_at a (push_log groups log)
      ≡ (if a == log.address then group_at a groups ++ (log ∷ []) else group_at a groups)
unfolding push_log group_at
group_at-push a groups log =
    ground (arith, get-insert a log.address (group_at log.address groups ++ (log ∷ [])) groups)

pub group_by_pool-IsSorted :
    (groups : BTreeMap (List Log)) (logs : List Log)
    → BTreeMap.IsSorted groups
    → BTreeMap.IsSorted (group_by_pool groups logs)
unfolding group_by_pool push_log
group_by_pool-IsSorted groups [] s = s
group_by_pool-IsSorted groups (log ∷ logs) s =
    group_by_pool-IsSorted (push_log groups log) logs
      (insert-IsSorted log.address (group_at log.address groups ++ (log ∷ [])) groups s)

group_at-group :
    (a : ℕ) (groups : BTreeMap (List Log)) (logs : List Log)
    → group_at a (group_by_pool groups logs) ≡ group_at a groups ++ logs_of a logs
unfolding group_by_pool
group_at-group a groups [] = sym (append-nil (group_at a groups))
group_at-group a groups (log ∷ logs) = elim (Bool-cases (a == log.address)) [
  | inl here ↦
      rw (here, group_at-group a (push_log groups log) logs, group_at-push a groups log, here)
        (append_assoc (group_at a groups) (log ∷ []) (logs_of a logs))
  | inr elsewhere ↦
      rw
        (
          elsewhere,
          group_at-group a (push_log groups log) logs,
          group_at-push a groups log,
          elsewhere,
        )
        refl
]

pub group_at-logs_of :
    (a : ℕ) (events : List Log) → group_at a (group_by_pool [] events) ≡ logs_of a events
unfolding group_at BTreeMap.get
group_at-logs_of a events = group_at-group a [] events

module _ (Q : Log → Type 0) where
  pub logs_of-All : (a : ℕ) (logs : List Log) → All Q logs → All Q (logs_of a logs)
  logs_of-All a [] hs = tt
  logs_of-All a (log ∷ logs) (h, hs) = elim (Bool-cases (a == log.address)) [
    | inl e ↦ rw e (h, logs_of-All a logs hs)
    | inr e ↦ rw e (logs_of-All a logs hs)
  ]

  group_at-All :
      (a : ℕ) (groups : BTreeMap (List Log))
      → BTreeMap.Every (λ _ logs. All Q logs) groups
      → All Q (group_at a groups)
  unfolding group_at
  group_at-All a groups hs = elim (Option-cases (BTreeMap.get a groups)) [
    | inl e ↦ rw (e, group_at) tt
    | inr (logs, e) ↦ rw (e, group_at) (get-Every (λ _ logs. All Q logs) a logs groups hs e)
  ]

  pub group_by_pool-All :
      (groups : BTreeMap (List Log)) (logs : List Log)
      → BTreeMap.Every (λ _ logs. All Q logs) groups
      → All Q logs
      → BTreeMap.Every (λ _ logs. All Q logs) (group_by_pool groups logs)
  unfolding group_by_pool push_log
  group_by_pool-All groups [] gs hs = gs
  group_by_pool-All groups (log ∷ logs) gs (h, hs) =
      group_by_pool-All (push_log groups log) logs
        (insert-Every (λ _ logs. All Q logs) log.address _ groups
          (All-append Q (group_at log.address groups) (log ∷ [])
            (group_at-All log.address groups gs) (h, tt))
          gs)
        hs

-- The log names its transaction.
abbrev pub HasHash : Log → Type 0
HasHash log = (h : ℕ) × (log.transaction_hash ≡ some h)

-- What a mined log has, and what an event has: a hash, an index and a topic.
abbrev pub IsMined : Log → Type 0
IsMined log = HasHash log × ((i : ℕ) × (log.log_index ≡ some i)) × ((t : ℕ) × (log.topic0 ≡ some t))

pub AreMined-HaveHash : (logs : List Log) → All IsMined logs → All HasHash logs
AreMined-HaveHash [] hs = tt
AreMined-HaveHash (log ∷ logs) (h, hs) = (h.0, AreMined-HaveHash logs hs)
