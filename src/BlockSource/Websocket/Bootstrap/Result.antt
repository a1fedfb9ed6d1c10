-- ===== src/BlockSource/Websocket/Bootstrap/Result.antt =====
-- The whole bootstrap of the websocket source of src/collector/block_source.rs: the handover from
-- RPC to the queue at the first queued log.
use evm_dex_pool.Base.{
  ℕ, ◌+◌, ◌≤◌, ◌<◌, ◌^◌, Bool, List, ◌++◌, All, ◌≡◌, refl, ap, sym, subst, ◌∙◌, ok, Returns,
}
use evm_dex_pool.Base.Sort.{count}
use evm_dex_pool.BTreeMap.{BTreeMap}
use evm_dex_pool.Chain.{Log, LogPosition}
use evm_dex_pool.Registry.{
  PoolInterface, PoolRegistry, get_pool, set_last_processed_block, trader_joe_lb,
  get_addresses_by_type,
}
use evm_dex_pool.Timestamps.Laws.{enrich-All}
use evm_dex_pool.Queue.{drain}
use evm_dex_pool.Processor.Groups.{logs_of}
use evm_dex_pool.Processor.Apply.{updated}
use evm_dex_pool.Updater.Caught.{updated-append}
use evm_dex_pool.BlockSource.{Answers}
use evm_dex_pool.BlockSource.Polling.{enriched}
use evm_dex_pool.BlockSource.Batches.{catchup_batches}
use evm_dex_pool.BlockSource.Batches.Tiles.{catchup_batches-once}
use evm_dex_pool.BlockSource.Settler
use evm_dex_pool.BlockSource.Settler.{unwrap_or}
use evm_dex_pool.BlockSource.Websocket.{WebsocketBlockSource}
use evm_dex_pool.BlockSource.Websocket.Gaps.{IsFresh, IsBounded}
use evm_dex_pool.BlockSource.Websocket.Turns.{set_time-IsFresh}
use evm_dex_pool.BlockSource.Websocket.Bootstrap.{
  first_position, apply_events, max_block, catch_up, bootstrap,
}
use evm_dex_pool.BlockSource.Websocket.Bootstrap.Handover.{
  Precedes, Caught, Caught-Precedes, apply_events-updated, catch_up-Caught,
}
use evm_dex_pool.BlockSource.Websocket.Bootstrap.First.{events-IsFresh}
use evm_dex_pool.BlockSource.Websocket.Bootstrap.Queued.{queued_events-QueuedUp}

-- The place of the first queued log, or else the start of the latest block.
abbrev pub floor_of : Answers → WebsocketBlockSource → LogPosition
floor_of a self = unwrap_or (a.latest_block, 0, 0) (first_position self.event_queue.sent)

-- Every pool has the logs from before the floor applied that the node answers for the blocks after
-- the cursor, and then logs from the floor on, among them all those of the queue.
pub record IsHandedOver {P : Type 0} (pools : PoolInterface P) (r : PoolRegistry P) (a : Answers)
    (self : WebsocketBlockSource) (result : PoolRegistry P × WebsocketBlockSource) : Type 0 where
  pub ranges : List (ℕ × ℕ)
  pub ranges_are :
      catchup_batches r.last_processed_block self.max_blocks_per_batch (floor_of a self).0
      ≡ ok ranges
  pub caught : List Log
  pub answered : Caught a self.event_queue.block_times (floor_of a self) ranges caught
  pub are_before : All (Precedes (floor_of a self)) caught
  pub later : List Log
  pub from_floor_on : All (IsFresh (floor_of a self)) later
  pub queued : List Log
  pub none_missing :
      (wanted : Log → Bool) → count wanted self.event_queue.sent ≤ count wanted queued
  pub known : BTreeMap ℕ
  pub between : PoolRegistry P
  pub later_is : later ≡ enriched pools between a known queued
  pub pools_are :
      (x : ℕ) → get_pool result.0 x ≡ updated pools (logs_of x (caught ++ later)) (get_pool r x)
  pub floor_is : result.1.fill_floor ≡ floor_of a self
  pub cursor_is : result.1.settler.released_through ≡ result.0.last_processed_block

module _ {P : Type 0} (pools : PoolInterface P) where
  pools_after :
      (r : PoolRegistry P) (caught later : List Log) (block x : ℕ)
      → get_pool
          (set_last_processed_block (apply_events pools (apply_events pools r caught) later) block)
          x
        ≡ updated pools (logs_of x (caught ++ later)) (get_pool r x)
  unfolding set_last_processed_block get_pool
  pools_after r caught later block x =
      apply_events-updated pools later (apply_events pools r caught) x
      ∙ ap (updated pools (logs_of x later)) (apply_events-updated pools caught r x)
      ∙ sym (updated-append pools x caught later (get_pool r x))

  later-AreFresh :
      (between : PoolRegistry P) (a : Answers) (known : BTreeMap ℕ) (floor : LogPosition)
      (queued : List Log)
      → All (IsFresh floor) queued
      → All (IsFresh floor) (enriched pools between a known queued)
  unfolding enriched
  later-AreFresh between a known floor queued fs =
      enrich-All (IsFresh floor) (set_time-IsFresh floor) a.header
        (get_addresses_by_type pools between trader_joe_lb) queued known fs

  -- For a cursor below the last `u64`, a floor and a number of blocks for a batch that are `u64`s,
  -- and gaps whose blocks are `u64`s, the bootstrap of the websocket source ends without a panic.
  -- Its floor is the place of the first queued log, or the start of the latest block. Every pool
  -- then has two lists of logs applied, one after the other: first those that the node answers,
  -- range by range from the block after the cursor on, up to the first one at or after the floor,
  -- all of them before the floor; then, with their block times, logs from the floor on, among them
  -- all those of the queue. The settler starts at the cursor of the registry.
  pub bootstrap-IsHandedOver :
      (r : PoolRegistry P) (a : Answers) (self : WebsocketBlockSource)
      → r.last_processed_block + 1 < 2 ^ 64
      → self.max_blocks_per_batch < 2 ^ 64
      → (floor_of a self).0 < 2 ^ 64
      → All (IsBounded self.max_blocks_per_batch (floor_of a self)) self.event_queue.gaps
      → Returns (bootstrap pools r a self) (IsHandedOver pools r a self)
  unfolding bootstrap drain Settler.new set_last_processed_block
  bootstrap-IsHandedOver r a self lf mf ff bs =
      let floor = floor_of a self in
      let (q, events) = drain self.event_queue in
      let floored = record self { event_queue = q; fill_floor = floor } in
      let (ranges, e, t) =
        catchup_batches-once r.last_processed_block self.max_blocks_per_batch floor.0 lf mf ff in
      let (caught, c, answered) = catch_up-Caught pools ranges a q.block_times floor r in
      let ((next, queued), e', k) =
        queued_events-QueuedUp floored a.logs events bs
          (events-IsFresh events (a.latest_block, 0, 0)) in
      let between = catch_up pools a q.block_times floor r ranges in
      let later = enriched pools between a next.event_queue.block_times queued in
      rw (e, e')
        (
          _,
          refl,
          record {
            ranges = ranges;
            ranges_are = e;
            caught = caught;
            answered = answered;
            are_before = Caught-Precedes a q.block_times floor answered;
            later = later;
            from_floor_on =
                later-AreFresh between a next.event_queue.block_times floor queued k.fresh;
            queued = queued;
            none_missing = k.keeps;
            known = next.event_queue.block_times;
            between = between;
            later_is = refl;
            pools_are = λ x.
                subst
                  (λ (b : PoolRegistry P).
                    get_pool
                      (set_last_processed_block (apply_events pools b later)
                        (unwrap_or floor.0 (max_block queued)))
                      x
                    ≡ updated pools (logs_of x (caught ++ later)) (get_pool r x))
                  (sym c) (pools_after r caught later (unwrap_or floor.0 (max_block queued)) x);
            floor_is = k.floor_is;
            cursor_is = refl;
          },
        )
