-- ===== src/BlockSource/Polling.antt =====
-- `PendingBlockSource` and `LatestBlockSource` of src/collector/block_source.rs. Sleeping and
-- logging are left out.
use evm_dex_pool.Base.{
  ℕ, Bool, true, false, ltb, if◌then◌else◌, List, [], ◌∷◌, Option, none, some, Outcome, ok, ◌>>=◌,
}
use evm_dex_pool.Base.Search.{is_empty}
use evm_dex_pool.Uint
use evm_dex_pool.BTreeMap
use evm_dex_pool.BTreeMap.{BTreeMap}
use evm_dex_pool.Chain.{Log}
use evm_dex_pool.Registry.{
  PoolInterface, PoolRegistry, trader_joe_lb, get_addresses_by_type, get_all_addresses,
}
use evm_dex_pool.Timestamps.{enrich_if_lb_pools_present}
use evm_dex_pool.BlockSource.{
  EventBatch, apply_only, confirmed_with_swaps, pending, Answers, BlockSource,
}
use evm_dex_pool.BlockSource.Batches.{batch_end, latest_batches}

pub data PendingPhase : Type 0 where
  poll_block_number fetch_pending : PendingPhase
  confirmed_batches : ℕ → ℕ → PendingPhase

pub record LatestBlockSource : Type 0 where
  pub max_blocks_per_batch : ℕ
  pub batches : List (ℕ × ℕ × Bool)
  pub known_block_times : BTreeMap ℕ

-- The two `new`s.
abbrev pub new_pending : PendingPhase
new_pending = poll_block_number

abbrev pub new_latest : ℕ → LatestBlockSource
new_latest max_blocks_per_batch = record {
  max_blocks_per_batch = max_blocks_per_batch;
  batches = [];
  known_block_times = [];
}

abbrev known_block_times_kept : ℕ
known_block_times_kept = 64

-- `retain(|&n, _| n + KNOWN_BLOCK_TIMES_KEPT > latest_block)`
unfoldable pub retain_times : ℕ → BTreeMap ℕ → BTreeMap ℕ
retain_times latest_block [] = []
retain_times latest_block ((n, time) ∷ times) =
    let rest = retain_times latest_block times in
    if ltb latest_block (Uint.add 64 n known_block_times_kept) then (n, time) ∷ rest else rest

-- From `next_block` to the latest, or another poll where there is none.
unfoldable pub after_poll : ℕ → ℕ → PendingPhase
after_poll next_block latest_block =
    if ltb latest_block next_block
    then poll_block_number
    else confirmed_batches next_block latest_block

-- The phase after a batch that ended before `next_block`.
unfoldable pub after_batch : ℕ → ℕ → PendingPhase
after_batch next_block latest_block =
    if ltb latest_block next_block then fetch_pending else confirmed_batches next_block latest_block

module _ {P : Type 0} (pools : PoolInterface P) where
  unfoldable pub enriched : PoolRegistry P → Answers → BTreeMap ℕ → List Log → List Log
  enriched r a known logs =
      enrich_if_lb_pools_present a.header (get_addresses_by_type pools r trader_joe_lb) logs known

  unfoldable pub pending_turn :
      ℕ → PoolRegistry P → Answers → PendingPhase → Outcome (PendingPhase × Option EventBatch)
  unfolding after_poll after_batch enriched
  pending_turn max_blocks r a poll_block_number =
      ok (after_poll (Uint.add 64 r.last_processed_block 1) a.latest_block, none)
  pending_turn max_blocks r a (confirmed_batches current_block latest_block) =
      let end = batch_end max_blocks latest_block current_block in
      ok (
        after_batch (Uint.add 64 end 1) latest_block,
        some (record {
          events = enriched r a [] (a.logs current_block end);
          processing_mode = apply_only;
          processed_through_block = some end;
        }),
      )
  pending_turn max_blocks r a fetch_pending =
      if is_empty (get_all_addresses r)
      then ok (poll_block_number, none)
      else ok (
        poll_block_number,
        some (record {
          events = enriched r a [] a.pending_logs;
          processing_mode = pending;
          processed_through_block = none;
        }),
      )

  unfoldable pub pending_source : ℕ → BlockSource P PendingPhase
  unfolding pending_turn
  pending_source max_blocks = record { turn = pending_turn max_blocks }

  -- With the batches as they will be popped: first the one to fetch next.
  unfoldable pub latest_turn_of :
      PoolRegistry P
      → Answers
      → LatestBlockSource
      → List (ℕ × ℕ × Bool)
      → Outcome (LatestBlockSource × Option EventBatch)
  unfolding enriched retain_times latest_batches
  latest_turn_of r a self ((from, to, is_latest_single) ∷ batches) = ok (
    record self { batches = batches },
    some (record {
      events = enriched r a self.known_block_times (a.logs from to);
      processing_mode = if is_latest_single then confirmed_with_swaps else apply_only;
      processed_through_block = some to;
    }),
  )
  latest_turn_of r a self [] =
      let known =
        retain_times a.latest_block
          (BTreeMap.insert a.latest_block a.latest_time self.known_block_times) in
      let next_block = Uint.add 64 r.last_processed_block 1 in
      let polled = record self { known_block_times = known } in
      elim (ltb a.latest_block next_block) [
        | true ↦ ok (polled, none)
        | false ↦ latest_batches self.max_blocks_per_batch a.latest_block next_block >>= λ batches.
            ok (record polled { batches = batches }, none)
      ]

  unfoldable pub latest_turn :
      PoolRegistry P → Answers → LatestBlockSource → Outcome (LatestBlockSource × Option EventBatch)
  unfolding latest_turn_of
  latest_turn r a self = latest_turn_of r a self self.batches

  unfoldable pub latest_source : BlockSource P LatestBlockSource
  unfolding latest_turn
  latest_source = record { turn = latest_turn }
