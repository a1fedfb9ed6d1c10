-- ===== src/BlockSource.antt =====
-- src/collector/block_source.rs: where the updater's batches of logs come from. The children
-- model the ranges of blocks that are fetched, the two sources that poll, and the settler and the
-- source of the websocket mode.
pub mod Batches
pub mod Settler
pub mod Polling
pub mod Websocket
use evm_dex_pool.Base.{ℕ, List, Option, Outcome}
use evm_dex_pool.Chain.{Log}
use evm_dex_pool.Registry.{PoolRegistry}

pub data ProcessingMode : Type 0 where
  apply_only confirmed_with_swaps pending : ProcessingMode

pub record EventBatch : Type 0 where
  pub events : List Log
  pub processing_mode : ProcessingMode
  pub processed_through_block : Option ℕ

-- What the RPC node answers while a source goes once around its loop. A call that retries until
-- it is answered is its answer: the logs from one block to another, those of the pending block,
-- the number and the time of the latest block, and the times in the headers that could be read.
pub record Answers : Type 0 where
  pub logs : ℕ → ℕ → List Log
  pub pending_logs : List Log
  pub latest_block : ℕ
  pub latest_time : ℕ
  pub header : ℕ → Option ℕ

-- The trait of the sources: one turn of the loop of `next_batch`, which ends with a batch or goes
-- around again.
pub record BlockSource (P S : Type 0) : Type 0 where
  pub turn : PoolRegistry P → Answers → S → Outcome (S × Option EventBatch)
