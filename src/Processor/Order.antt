-- ===== src/Processor/Order.antt =====
-- The order of the pools in `process_confirmed_events` of src/collector/event_processor.rs.
use evm_dex_pool.Base.{
  ℕ, Bool, true, false, ◌||◌, ◌==◌, if◌then◌else◌, List, [], ◌∷◌, ◌++◌, ◌≡◌, refl, none, some,
  arith, Bool-cases, inl, inr,
}
use evm_dex_pool.Base.Search.{contains, AreDistinct, contains-append, AreDistinct-append}
use evm_dex_pool.BTreeMap
use evm_dex_pool.BTreeMap.{BTreeMap}
use evm_dex_pool.BTreeMap.Lookup.{get-insert}
use evm_dex_pool.Chain.{Log}
use evm_dex_pool.Processor.{group_at, push_log, group_by_pool, order_of}
use evm_dex_pool.Processor.Groups.{logs_of, group_at-logs_of}

-- Whether the map has the address.
abbrev grouped : ℕ → BTreeMap (List Log) → Bool
grouped a groups = elim (BTreeMap.get a groups) [ none ↦ false | some _ ↦ true ]

grouped-push :
    (a : ℕ) (groups : BTreeMap (List Log)) (log : Log)
    → grouped a (push_log groups log) ≡ (grouped a groups || a == log.address)
unfolding push_log
grouped-push a groups log =
    ground (arith, get-insert a log.address (group_at log.address groups ++ (log ∷ [])) groups)

-- The order lists the addresses of the groups.
order_of-grouped :
    (order : List ℕ) (groups : BTreeMap (List Log)) (logs : List Log)
    → ((a : ℕ) → contains a order ≡ grouped a groups)
    → (a : ℕ) → contains a (order_of order logs) ≡ grouped a (group_by_pool groups logs)
unfolding order_of group_by_pool contains
order_of-grouped order groups [] same = same
order_of-grouped order groups (log ∷ logs) same =
    order_of-grouped (if contains log.address order then order else order ++ (log.address ∷ []))
      (push_log groups log) logs
      (λ a. ground (
        arith,
        same a,
        same log.address,
        grouped-push a groups log,
        contains-append a order (log.address ∷ []),
      ))

pub order_of-AreDistinct :
    (order : List ℕ) (logs : List Log) → AreDistinct order → AreDistinct (order_of order logs)
unfolding order_of
order_of-AreDistinct order [] d = d
order_of-AreDistinct order (log ∷ logs) d = elim (Bool-cases (contains log.address order)) [
  | inl old ↦ rw old (order_of-AreDistinct order logs d)
  | inr fresh ↦ rw fresh (
      order_of-AreDistinct (order ++ (log.address ∷ [])) logs
        (AreDistinct-append log.address order d fresh))
]

listed :
    (events : List Log) (a : ℕ)
    → contains a (order_of [] events) ≡ grouped a (group_by_pool [] events)
unfolding contains BTreeMap.get
listed events = order_of-grouped [] [] events (λ a. refl)

pub listed_logs :
    (events : List Log) (a : ℕ)
    → contains a (order_of [] events) ≡ true
    → BTreeMap.get a (group_by_pool [] events) ≡ some (logs_of a events)
unfolding group_at
listed_logs events a h = ground (arith, h, listed events a, group_at-logs_of a events)

pub left_all :
    (events : List Log) (a : ℕ)
    → (if contains a (order_of [] events) then logs_of a events else []) ≡ logs_of a events
unfolding group_at
left_all events a = ground (arith, listed events a, group_at-logs_of a events)
