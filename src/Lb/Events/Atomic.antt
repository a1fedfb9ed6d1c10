-- ===== src/Lb/Events/Atomic.antt =====
-- The pool behind a rejected log, by the arm of `LBPool::apply_log` (src/lb/pool.rs).
use evm_dex_pool.Base.{
  ℕ, ◌≡◌, ◌≢◌, refl, Option, none, some, ok, err, Error, accumulator_too_large, arith,
}
use evm_dex_pool.Lb.Pool.{LbPool}
use evm_dex_pool.Lb.Events.{
  Topic, swap_topic, composition_fees_topic, deposited_topic, withdrawn_topic, static_fee_topic,
  flash_loan_topic, swap_v20_topic, deposited_v20_topic, withdrawn_v20_topic, other_topic, LbLog,
  dispatch, apply_log,
}
use evm_dex_pool.Lb.Events.Arms.{
  Applied, require_rule, SwapV20, BinV20, FlashLoanData, swap, composition_fees, deposited_to_bins,
  withdrawn_from_bins, static_fee_parameters_set, flash_loan, swap_v20, deposited_to_bin_v20,
  withdrawn_from_bin_v20,
}

-- Where the handler fails, but for a v2.0 accumulator, the pool is the one it was given.
data Untouched (p : LbPool) (a : Applied) : Type 0 where
  untouched : ((e : Error) → a.1 ≡ err e → e ≢ accumulator_too_large → a.0 ≡ p) → Untouched p a

Untouched→eq :
    (p : LbPool) (a : Applied)
    → Untouched p a
    → (e : Error) → a.1 ≡ err e
    → e ≢ accumulator_too_large
    → a.0 ≡ p
Untouched→eq p a (untouched f) = f

module _ (p : LbPool) where
  stopped : (e : Error) → Untouched p (p, err e)
  stopped e = untouched (λ _ _ _. refl)

  done : (q : LbPool) → Untouched p (q, ok tt)
  done q = untouched (λ e h n. cc)

  flash_loan-Untouched : (d : FlashLoanData) (now : ℕ) → Untouched p (flash_loan p d now)
  unfolding flash_loan
  flash_loan-Untouched d now = require_rule (Untouched p) _ _ p _ (stopped _) λ net_x _.
      require_rule (Untouched p) _ _ p _ (stopped _) λ net_y _.
        require_rule (Untouched p) _ _ p _ (stopped _)
          λ new_rx _. require_rule (Untouched p) _ _ p _ (stopped _) λ new_ry _. done _

  swap_v20-Untouched : (d : SwapV20) (ts now : ℕ) → Untouched p (swap_v20 p d ts now)
  unfolding swap_v20
  swap_v20-Untouched d ts now = require_rule (Untouched p) _ _ p _ (stopped _) λ id _.
      require_rule (Untouched p) _ _ p _ (stopped _) λ amount_in _.
        require_rule (Untouched p) _ _ p _ (stopped _) λ amount_out _.
          require_rule (Untouched p) _ _ _ _ (untouched λ e h n. absurd (n (ground arith)))
            λ acc _. done _

  deposited_v20-Untouched : (d : BinV20) (ts : ℕ) → Untouched p (deposited_to_bin_v20 p d ts)
  unfolding deposited_to_bin_v20
  deposited_v20-Untouched d ts = require_rule (Untouched p) _ _ p _ (stopped _) λ id _.
      require_rule (Untouched p) _ _ p _ (stopped _)
        λ x _. require_rule (Untouched p) _ _ p _ (stopped _) λ y _. done _

  withdrawn_v20-Untouched : (d : BinV20) (ts : ℕ) → Untouched p (withdrawn_from_bin_v20 p d ts)
  unfolding withdrawn_from_bin_v20
  withdrawn_v20-Untouched d ts = require_rule (Untouched p) _ _ p _ (stopped _) λ id _.
      require_rule (Untouched p) _ _ p _ (stopped _)
        λ x _. require_rule (Untouched p) _ _ p _ (stopped _) λ y _. done _

module _ (l : LbLog) (p : LbPool) where
  dispatch-Untouched :
      (t : Option Topic) (log : l.Log) (now : ℕ) → Untouched p (dispatch l t p log now)
  unfolding dispatch swap composition_fees static_fee_parameters_set deposited_to_bins
      withdrawn_from_bins
  dispatch-Untouched none log now = done p p
  dispatch-Untouched (some swap_topic) log now =
      require_rule (Untouched p) _ _ p _ (stopped p _) λ d e. done p _
  dispatch-Untouched (some composition_fees_topic) log now =
      require_rule (Untouched p) _ _ p _ (stopped p _) λ d e. done p _
  dispatch-Untouched (some deposited_topic) log now =
      require_rule (Untouched p) _ _ p _ (stopped p _) λ d e. done p _
  dispatch-Untouched (some withdrawn_topic) log now =
      require_rule (Untouched p) _ _ p _ (stopped p _) λ d e. done p _
  dispatch-Untouched (some static_fee_topic) log now =
      require_rule (Untouched p) _ _ p _ (stopped p _) λ d e. done p _
  dispatch-Untouched (some flash_loan_topic) log now =
      require_rule (Untouched p) _ _ p _ (stopped p _) λ d e. flash_loan-Untouched p d now
  dispatch-Untouched (some swap_v20_topic) log now =
      require_rule (Untouched p) _ _ p _ (stopped p _) λ d e. swap_v20-Untouched p d _ now
  dispatch-Untouched (some deposited_v20_topic) log now =
      require_rule (Untouched p) _ _ p _ (stopped p _) λ d e. deposited_v20-Untouched p d _
  dispatch-Untouched (some withdrawn_v20_topic) log now =
      require_rule (Untouched p) _ _ p _ (stopped p _) λ d e. withdrawn_v20-Untouched p d _
  dispatch-Untouched (some other_topic) log now = done p p

  -- A log that is rejected leaves the pool as it was, unless it is rejected for the size of its
  -- accumulator, as a v2.0 swap can be.
  pub apply_log-atomic :
      (log : l.Log) (now : ℕ) (e : Error)
      → (apply_log l p log now).1 ≡ err e
      → e ≢ accumulator_too_large
      → (apply_log l p log now).0 ≡ p
  unfolding apply_log
  apply_log-atomic log now = Untouched→eq p _ (dispatch-Untouched (l.topic0 log) log now)
