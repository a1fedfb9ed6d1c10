-- ===== src/Timestamps.antt =====
-- The block times of logs: `lacks_block_timestamp`, `blocks_needing_timestamps`,
-- `fill_block_timestamps` and `enrich_log_timestamps_where` of src/collector/utils.rs, and
-- `enrich_if_lb_pools_present` of src/collector/block_source.rs. The headers that the RPC node
-- answers with are a parameter: the time of a block, where one of the attempts at its header
-- succeeded.
pub mod Laws
use evm_dex_pool.Base.{
  ℕ, Bool, true, false, not, ◌&&◌, ◌||◌, ◌==◌, if◌then◌else◌, List, [], ◌∷◌, Option, none, some,
}
use evm_dex_pool.Base.Search.{contains, is_empty}
use evm_dex_pool.BTreeMap
use evm_dex_pool.BTreeMap.{BTreeMap}
use evm_dex_pool.Chain.{Log}

-- `None` or `Some(0)`
unfoldable pub lacks_time : Option ℕ → Bool
lacks_time none = true
lacks_time (some t) = t == 0

unfoldable pub lacks_block_timestamp : Log → Bool
unfolding lacks_time
lacks_block_timestamp log = lacks_time log.block_timestamp

-- The set of blocks with one more, where the log has a block whose time is not known.
unfoldable pub need_block : BTreeMap ℕ → Option ℕ → BTreeMap (Unit {0}) → BTreeMap (Unit {0})
need_block known none blocks = blocks
need_block known (some n) blocks = elim (BTreeMap.get n known) [
  | none ↦ BTreeMap.insert n tt blocks
  | some time ↦ blocks
]

-- The `BTreeSet` that the chain of filters collects.
unfoldable pub blocks_needing_timestamps :
    List Log → (Log → Bool) → BTreeMap ℕ → BTreeMap (Unit {0})
unfolding need_block
blocks_needing_timestamps [] wanted known = []
blocks_needing_timestamps (log ∷ logs) wanted known =
    let rest = blocks_needing_timestamps logs wanted known in
    if wanted log && lacks_block_timestamp log then need_block known log.block_number rest else rest

-- `fetch_block_timestamps`, added to the known times: the blocks without a header stay out.
unfoldable pub extend_times : (ℕ → Option ℕ) → BTreeMap (Unit {0}) → BTreeMap ℕ → BTreeMap ℕ
extend_times header [] times = times
extend_times header ((n, _) ∷ blocks) times = elim (header n) [
  | none ↦ extend_times header blocks times
  | some time ↦ extend_times header blocks (BTreeMap.insert n time times)
]

-- `log.block_number.and_then(|n| times.get(&n))`
unfoldable pub time_in : BTreeMap ℕ → Option ℕ → Option ℕ
time_in times none = none
time_in times (some n) = BTreeMap.get n times

unfoldable pub set_time : Log → Option ℕ → Log
set_time log none = log
set_time log (some time) = record log { block_timestamp = some time }

-- One turn of the loop of `fill_block_timestamps`.
unfoldable pub fill_log : (Log → Bool) → BTreeMap ℕ → Log → Log
unfolding time_in set_time
fill_log wanted times log =
    if wanted log && lacks_block_timestamp log
    then set_time log (time_in times log.block_number)
    else log

unfoldable pub fill_block_timestamps : List Log → (Log → Bool) → BTreeMap ℕ → List Log
fill_block_timestamps [] wanted times = []
fill_block_timestamps (log ∷ logs) wanted times =
    fill_log wanted times log ∷ fill_block_timestamps logs wanted times

-- Where no block is to be fetched, `extend_times` adds nothing, as the test in the source does.
unfoldable pub enrich_log_timestamps_where :
    (ℕ → Option ℕ) → List Log → (Log → Bool) → BTreeMap ℕ → List Log
unfolding extend_times fill_block_timestamps
enrich_log_timestamps_where header logs wanted known =
    let to_fetch = blocks_needing_timestamps logs wanted known in
    fill_block_timestamps logs wanted (extend_times header to_fetch known)

-- With the addresses of the LB pools of the registry.
unfoldable pub enrich_if_lb_pools_present :
    (ℕ → Option ℕ) → List ℕ → List Log → BTreeMap ℕ → List Log
unfolding contains is_empty enrich_log_timestamps_where
enrich_if_lb_pools_present header lb events known =
    if is_empty lb
    then events
    else enrich_log_timestamps_where header events (λ log. contains log.address lb) known
