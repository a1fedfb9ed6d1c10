-- ===== src/Processor.antt =====
-- `EventProcessor` of src/collector/event_processor.rs: how a batch of logs reaches the pools of
-- the registry, or clones of them, and which logs are sent on. The metrics and what the consumer
-- does with a log are left out; a hash map that is iterated comes in the order of its keys.
pub mod Groups
pub mod Apply
pub mod Sent
pub mod Order
pub mod Confirmed
pub mod Pending
use evm_dex_pool.Base.{
  ℕ, Bool, true, false, if◌then◌else◌, List, [], ◌∷◌, ◌++◌, Option, none, some, Outcome, ok, panic,
  ◌>>=◌,
}
use evm_dex_pool.Base.Search.{contains}
use evm_dex_pool.BTreeMap
use evm_dex_pool.BTreeMap.{BTreeMap}
use evm_dex_pool.Chain.{Log}
use evm_dex_pool.Registry.{PoolInterface, PoolRegistry, get_pool, store}

-- Whether there is a consumer, and the topics that are sent to it: those of the registry at the
-- time when the processor was made.
pub record EventProcessor : Type 0 where
  pub swap_event_tx : Bool
  pub profitable_topics : List ℕ

-- `entry(key).or_default()`
unfoldable pub group_at : ℕ → BTreeMap (List Log) → List Log
group_at address groups = elim (BTreeMap.get address groups) [ none ↦ [] | some logs ↦ logs ]

unfoldable pub push_log : BTreeMap (List Log) → Log → BTreeMap (List Log)
unfolding group_at
push_log groups log = BTreeMap.insert log.address (group_at log.address groups ++ (log ∷ [])) groups

unfoldable pub group_by_pool : BTreeMap (List Log) → List Log → BTreeMap (List Log)
unfolding push_log
group_by_pool groups [] = groups
group_by_pool groups (log ∷ logs) = group_by_pool (push_log groups log) logs

-- The addresses in the order in which they first occur, after those that are known.
unfoldable pub order_of : List ℕ → List Log → List ℕ
order_of order [] = order
order_of order (log ∷ logs) =
    order_of (if contains log.address order then order else order ++ (log.address ∷ [])) logs

-- `.unwrap()`
abbrev unwrap {ℓ κ} : {A : Type ℓ} {B : Type κ} → Option A → (A → Outcome B) → Outcome B
unwrap none rest = panic
unwrap (some a) rest = rest a

-- `event.topic0().unwrap()` in the set, where swaps are collected.
unfoldable pub is_swap : Bool → List ℕ → Log → Outcome Bool
is_swap false profitable_topics log = ok false
is_swap true profitable_topics log =
    unwrap log.topic0 λ topic. ok (contains topic profitable_topics)

-- `send_swap_event`: its two unwraps, and the log on the channel.
unfoldable pub send_swap_events : List Log → Outcome (List Log)
send_swap_events [] = ok []
send_swap_events (log ∷ logs) =
    unwrap log.transaction_hash
      λ hash. unwrap log.log_index λ index. send_swap_events logs >>= λ sent. ok (log ∷ sent)

-- The clone of the pool that a log is for, made where there is none.
unfoldable pub cloned : {P : Type 0} → PoolRegistry P → BTreeMap P → ℕ → Option P
cloned r modified_pools address = elim (BTreeMap.get address modified_pools) [
  | none ↦ get_pool r address
  | some pool ↦ some pool
]

module _ {P : Type 0} (pools : PoolInterface P) where
  -- `apply_log` on a locked pool: an error is logged with the hash, which must be there.
  unfoldable pub apply_one : P → Log → Outcome P
  apply_one pool log =
      let (pool', result) = pools.apply_log pool log in
      elim result [ none ↦ ok pool' | some e ↦ unwrap log.transaction_hash λ hash. ok pool' ]

  unfoldable pub apply_group : P → List Log → Outcome P
  unfolding apply_one
  apply_group pool [] = ok pool
  apply_group pool (log ∷ logs) = apply_one pool log >>= λ pool'. apply_group pool' logs

  unfoldable pub apply_groups : PoolRegistry P → BTreeMap (List Log) → Outcome (PoolRegistry P)
  unfolding apply_group
  apply_groups r [] = ok r
  apply_groups r ((address, logs) ∷ groups) = elim (get_pool r address) [
    | none ↦ apply_groups r groups
    | some pool ↦ apply_group pool logs >>= λ pool'. apply_groups (store r address pool') groups
  ]

  unfoldable pub apply_events_to_registry : PoolRegistry P → List Log → Outcome (PoolRegistry P)
  unfolding apply_groups group_by_pool
  apply_events_to_registry r events = apply_groups r (group_by_pool [] events)

  -- The logs of one pool: the pool after them, and those that are to be sent.
  unfoldable pub confirm_group : Bool → List ℕ → P → List Log → Outcome (P × List Log)
  unfolding apply_one is_swap
  confirm_group collect profitable_topics pool [] = ok (pool, [])
  confirm_group collect profitable_topics pool (log ∷ logs) = do
    pool' ← apply_one pool log
    swap ← is_swap collect profitable_topics log
    (pool'', swaps) ← confirm_group collect profitable_topics pool' logs
    ok (pool'', if swap then log ∷ swaps else swaps)

  unfoldable pub confirm_groups :
      EventProcessor
      → PoolRegistry P
      → List ℕ
      → BTreeMap (List Log)
      → Outcome (PoolRegistry P × List Log)
  unfolding confirm_group
  confirm_groups self r [] groups = ok (r, [])
  confirm_groups self r (address ∷ order) groups = unwrap (BTreeMap.get address groups) λ logs.
      let rest = BTreeMap.remove address groups in
      elim (get_pool r address) [
        | none ↦ confirm_groups self r order rest
        | some pool ↦ do
          (pool', swaps) ← confirm_group self.swap_event_tx self.profitable_topics pool logs
          (r', more) ← confirm_groups self (store r address pool') order rest
          ok (r', swaps ++ more)
      ]

  unfoldable pub process_confirmed_events :
      EventProcessor → PoolRegistry P → List Log → Outcome (PoolRegistry P × List Log)
  unfolding confirm_groups group_by_pool order_of send_swap_events
  process_confirmed_events self r events = do
    (r', swaps) ← confirm_groups self r (order_of [] events) (group_by_pool [] events)
    sent ← send_swap_events (if self.swap_event_tx then swaps else [])
    ok (r', sent)

  unfoldable pub pending_loop :
      EventProcessor → PoolRegistry P → BTreeMap P → List Log → Outcome (BTreeMap P × List Log)
  unfolding cloned send_swap_events
  pending_loop self r modified_pools [] = ok (modified_pools, [])
  pending_loop self r modified_pools (log ∷ logs) = elim (cloned r modified_pools log.address) [
    | none ↦ pending_loop self r modified_pools logs
    | some pool ↦ do
      swap ← is_swap true self.profitable_topics log
      now ← send_swap_events (if swap then log ∷ [] else [])
      let pool' = (pools.apply_log pool log).0
      (modified, later) ←
          pending_loop self r (BTreeMap.insert log.address pool' modified_pools) logs
      ok (modified, now ++ later)
  ]

  -- The clones after the logs, and the logs that are sent.
  unfoldable pub process_pending_events :
      EventProcessor → PoolRegistry P → List Log → Outcome (BTreeMap P × List Log)
  unfolding pending_loop
  process_pending_events self r events =
      if self.swap_event_tx then pending_loop self r [] events else ok ([], [])
