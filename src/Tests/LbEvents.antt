-- ===== src/Tests/LbEvents.antt =====
-- The theorems on `LBPool::apply_log` (src/lb/pool.rs) at concrete logs.
use evm_dex_pool.Base.{◌≡◌, refl, Bool, true, false, [], ◌∷◌, none, some, fees_exceed_total, arith}
use evm_dex_pool.BTreeMap.{get}
use evm_dex_pool.Uint
use evm_dex_pool.Uint.{Fits}
use evm_dex_pool.Lb.Math.{decode_amounts}
use evm_dex_pool.Lb.Pool.{bin_at, update_references}
use evm_dex_pool.Lb.Pool.Bins.{AreBins}
use evm_dex_pool.Lb.Events.{
  LbLog, swap_topic, flash_loan_topic, swap_v20_topic, apply_log, dispatch,
}
use evm_dex_pool.Lb.Events.Arms.{
  clamp_id, SwapData, BinsData, FlashLoanData, swap_v20, flash_loan, deposited_to_bins,
  withdrawn_from_bins, require,
}
use evm_dex_pool.Lb.Events.Decoding.{be_bytes, pack}
use evm_dex_pool.Lb.Events.Invariant.{IsTyped, apply_log-AreBins}
use evm_dex_pool.Lb.Events.Atomic.{apply_log-atomic}
use evm_dex_pool.Lb.Events.Halfway.{IsHalfway, apply_log-IsHalfway}
use evm_dex_pool.Lb.Events.Clock.{swaps, references, swaps-references}
use evm_dex_pool.Lb.Events.Deposits.{withdraw-deposit}
use evm_dex_pool.Lb.Events.{other_topic}
use evm_dex_pool.Tests.Fixtures.{pool, bins, bins-AreBins}

-- A swap of 100 X into the active bin for 99 Y, and one that goes on to the next bin.
abbrev first_swap : SwapData
first_swap = record {
  id = 8_388_608;
  amounts_in = pack 100 0;
  amounts_out = pack 0 99;
  volatility_accumulator = 15_000;
}

abbrev second_swap : SwapData
second_swap = record {
  id = 8_388_607;
  amounts_in = pack 50 0;
  amounts_out = pack 0 49;
  volatility_accumulator = 25_000;
}

-- A flash loan that claims more protocol fees than fees.
abbrev bad_loan : FlashLoanData
bad_loan = record { active_id = 8_388_608; total_fees = pack 1 1; protocol_fees = pack 2 0 }

-- The log is a swap or a flash loan, by a flag.
abbrev logs : LbLog
logs = record {
  Log = Bool;
  topic0 = λ log. elim log [ true ↦ some swap_topic | false ↦ some flash_loan_topic ];
  block_timestamp = λ log. some 1_050;
  swap_data = λ log. some first_swap;
  composition_fees_id = λ log. none;
  deposited_data = λ log. none;
  withdrawn_data = λ log. none;
  static_fee_data = λ log. none;
  flash_loan_data = λ log. some bad_loan;
  swap_v20_data = λ log. none;
  deposited_v20_data = λ log. none;
  withdrawn_v20_data = λ log. none;
}

logs-IsTyped : IsTyped logs
logs-IsTyped = record { swap_id = λ log d e. ground arith; flash_loan_id = λ log d e. ground arith }

apply_log-AreBins_example : AreBins (apply_log logs pool true 1_060).0.bins
apply_log-AreBins_example = apply_log-AreBins logs logs-IsTyped pool bins-AreBins true 1_060

apply_log-atomic_example : (apply_log logs pool false 1_060).0 ≡ pool
unfolding apply_log dispatch flash_loan require decode_amounts be_bytes Uint.ops
apply_log-atomic_example =
    apply_log-atomic logs pool false 1_060 fees_exceed_total refl (ground arith)

-- Every log is a v2.0 swap whose accumulator takes 33 bits.
abbrev wide_logs : LbLog
wide_logs = record {
  Log = Unit {0};
  topic0 = λ log. some swap_v20_topic;
  block_timestamp = λ log. some 1_050;
  swap_data = λ log. none;
  composition_fees_id = λ log. none;
  deposited_data = λ log. none;
  withdrawn_data = λ log. none;
  static_fee_data = λ log. none;
  flash_loan_data = λ log. none;
  swap_v20_data = λ log. some (record {
    id = 8_388_610;
    swap_for_y = true;
    amount_in = 10;
    amount_out = 9;
    volatility_accumulated = 4_294_967_296;
  });
  deposited_v20_data = λ log. none;
  withdrawn_v20_data = λ log. none;
}

apply_log-IsHalfway_example :
    IsHalfway wide_logs (some swap_v20_topic) pool tt 1_060 (apply_log wide_logs pool tt 1_060).0
unfolding apply_log dispatch swap_v20 require Uint.ops
apply_log-IsHalfway_example = apply_log-IsHalfway wide_logs pool tt 1_060 refl

swaps-references_example :
    references (swaps pool (first_swap ∷ second_swap ∷ []) 1_050 1_060)
    ≡ update_references pool 1_050
swaps-references_example =
    swaps-references pool first_swap (second_swap ∷ []) 1_050 1_060 (omega arith)

abbrev deposit : BinsData
deposit = record {
  ids = 8_388_608 ∷ 8_388_600 ∷ 8_388_608 ∷ [];
  amounts = pack 5 6 ∷ pack 0 7 ∷ pack 1 0 ∷ [];
}

withdraw-deposit_example :
    bin_at
      (withdrawn_from_bins (deposited_to_bins pool deposit 1_050).0 deposit 1_051).0.bins
      8_388_600
    ≡ bin_at bins 8_388_600
unfolding bin_at decode_amounts clamp_id be_bytes get Uint.ops
withdraw-deposit_example =
    withdraw-deposit pool deposit 1_050 1_051 8_388_600 bins-AreBins (ground arith) (ground arith)

-- Logs of an unknown topic.
abbrev other_logs : LbLog
other_logs = record {
  Log = Bool;
  topic0 = λ log. some other_topic;
  block_timestamp = λ log. some 1_050;
  swap_data = λ log. some first_swap;
  composition_fees_id = λ log. none;
  deposited_data = λ log. none;
  withdrawn_data = λ log. none;
  static_fee_data = λ log. none;
  flash_loan_data = λ log. none;
  swap_v20_data = λ log. none;
  deposited_v20_data = λ log. none;
  withdrawn_v20_data = λ log. none;
}
