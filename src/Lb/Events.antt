-- ===== src/Lb/Events.antt =====
-- `LBPool::apply_log` (src/lb/pool.rs). Logs, and the decoding of their data by the event
-- bindings that `sol!` generates, are parameters; a handler answers with the pool that it leaves
-- behind, also where it fails, and with its result.
pub mod Arms
pub mod Decoding
pub mod Invariant
pub mod Atomic
pub mod Halfway
pub mod Clock
pub mod Deposits
pub mod Topics
use evm_dex_pool.Base.{
  ℕ, ◌+◌, ◌-◌, ◌^◌, Bool, true, false, ltb, ◌==◌, if◌then◌else◌, List, [], ◌∷◌, Option, none, some,
  Outcome, ok, err, Error, decode_failed,
}
use evm_dex_pool.Lb.Pool.{LbPool, FeeParameters}
use Arms.{
  SwapData, BinsData, FlashLoanData, SwapV20, BinV20, Applied, require, swap, composition_fees,
  deposited_to_bins, withdrawn_from_bins, static_fee_parameters_set, flash_loan, swap_v20,
  deposited_to_bin_v20, withdrawn_from_bin_v20, log_timestamp,
}

-- The signature hashes that `apply_log` compares the first topic with.
pub data Topic : Type 0 where
  swap_topic composition_fees_topic deposited_topic withdrawn_topic : Topic
  static_fee_topic flash_loan_topic : Topic
  swap_v20_topic deposited_v20_topic withdrawn_v20_topic other_topic : Topic

-- A log as the RPC types show it, and what the generated bindings decode it to.
pub record LbLog : Type 1 where
  pub Log : Type 0
  pub topic0 : Log → Option Topic
  pub block_timestamp : Log → Option ℕ
  pub swap_data : Log → Option SwapData
  pub composition_fees_id : Log → Option ℕ
  pub deposited_data : Log → Option BinsData
  pub withdrawn_data : Log → Option BinsData
  pub static_fee_data : Log → Option FeeParameters
  pub flash_loan_data : Log → Option FlashLoanData
  pub swap_v20_data : Log → Option SwapV20
  pub deposited_v20_data : Log → Option BinV20
  pub withdrawn_v20_data : Log → Option BinV20

module _ (l : LbLog) where
  open l use {
    Log, topic0, block_timestamp, swap_data, composition_fees_id, deposited_data, withdrawn_data,
    static_fee_data, flash_loan_data, swap_v20_data, deposited_v20_data, withdrawn_v20_data,
  }

  -- The `match` on the topic.
  unfoldable pub dispatch : Option Topic → LbPool → Log → ℕ → Applied
  dispatch none p log now = (p, ok tt)
  dispatch (some swap_topic) p log now =
      require (swap_data log) decode_failed p
        (λ d. swap p d (log_timestamp (block_timestamp log) now) now)
  dispatch (some composition_fees_topic) p log now =
      require (composition_fees_id log) decode_failed p
        (λ id. composition_fees p id (log_timestamp (block_timestamp log) now))
  dispatch (some deposited_topic) p log now =
      require (deposited_data log) decode_failed p (λ d. deposited_to_bins p d now)
  dispatch (some withdrawn_topic) p log now =
      require (withdrawn_data log) decode_failed p (λ d. withdrawn_from_bins p d now)
  dispatch (some static_fee_topic) p log now =
      require (static_fee_data log) decode_failed p (λ d. static_fee_parameters_set p d)
  dispatch (some flash_loan_topic) p log now =
      require (flash_loan_data log) decode_failed p (λ d. flash_loan p d now)
  dispatch (some swap_v20_topic) p log now =
      require (swap_v20_data log) decode_failed p
        (λ d. swap_v20 p d (log_timestamp (block_timestamp log) now) now)
  dispatch (some deposited_v20_topic) p log now =
      require (deposited_v20_data log) decode_failed p
        (λ d. deposited_to_bin_v20 p d (log_timestamp (block_timestamp log) now))
  dispatch (some withdrawn_v20_topic) p log now =
      require (withdrawn_v20_data log) decode_failed p
        (λ d. withdrawn_from_bin_v20 p d (log_timestamp (block_timestamp log) now))
  dispatch (some other_topic) p log now = (p, ok tt)

  unfoldable pub apply_log : LbPool → Log → ℕ → Applied
  unfolding dispatch
  apply_log p log now = dispatch (topic0 log) p log now
