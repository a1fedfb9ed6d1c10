-- ===== src/Tests/Websocket.antt =====
-- The theorems on the websocket source at a queue with a gap between its two logs.
use evm_dex_pool.Base.{[], ◌∷◌, All, true, some, arith, Returns}
use evm_dex_pool.Chain.{log_position}
use evm_dex_pool.Queue
use evm_dex_pool.Queue.{EventQueue, Gap}
use evm_dex_pool.BlockSource.Websocket.{
  WebsocketBlockSource, new_websocket, fetch_gap, websocket_turn,
}
use evm_dex_pool.BlockSource.Websocket.Gaps.{IsLost, IsBounded, fetch_gap-IsLost}
use evm_dex_pool.BlockSource.Websocket.Turns.{KeepsFloor, IsFreshBatch, websocket_turn-KeepsFloor}
use evm_dex_pool.BlockSource.Websocket.Bootstrap.{bootstrap, first_position}
use evm_dex_pool.BlockSource.Websocket.Bootstrap.Result.{IsHandedOver, bootstrap-IsHandedOver}
use evm_dex_pool.Tests.Collector.{pools, log_at, registry, answers_at}

abbrev gap : Gap
gap = record { after = some (13, 0, 0); before = (16, 0, 1) }

-- The feed lost what lies between block 13 and the second log of block 16.
abbrev queue : EventQueue
queue = record (Queue.new 9) { sent = log_at 13 0 1 3 ∷ log_at 16 1 2 4 ∷ []; gaps = gap ∷ [] }

abbrev source : WebsocketBlockSource
source = record {
  event_queue = queue;
  max_blocks_per_batch = 2;
  block_settle = 10;
  settler = (new_websocket queue 2 10 true).settler;
  fill_reconnect_gaps = true;
  fill_floor = (13, 0, 0);
  apply_only_through = 0;
}

gap-IsBounded : IsBounded 2 (13, 0, 0) gap
gap-IsBounded = record {
  span = omega arith;
  floor_fits = omega arith;
  before_fits = omega arith;
  after_fits = λ p e. ground (arith, e);
}

fetch_gap-IsLost_example :
    Returns
      (fetch_gap source (answers_at 17).logs gap)
      (λ result. All (IsLost gap (13, 0, 0)) result.1)
fetch_gap-IsLost_example = fetch_gap-IsLost source (answers_at 17).logs gap gap-IsBounded

websocket_turn-KeepsFloor_example :
    Returns
      (websocket_turn pools 40 registry (answers_at 17) source)
      (λ (next, batch). KeepsFloor source next × IsFreshBatch (13, 0, 0) batch)
unfolding new_websocket
websocket_turn-KeepsFloor_example =
    websocket_turn-KeepsFloor pools 40 registry (answers_at 17) source (gap-IsBounded, tt) tt

bootstrap-IsHandedOver_example :
    Returns
      (bootstrap pools registry (answers_at 17) source)
      (IsHandedOver pools registry (answers_at 17) source)
unfolding first_position log_position
bootstrap-IsHandedOver_example =
    bootstrap-IsHandedOver pools registry (answers_at 17) source (omega arith) (omega arith)
      (omega arith) (gap-IsBounded, tt)
