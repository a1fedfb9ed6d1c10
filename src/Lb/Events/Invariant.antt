-- ===== src/Lb/Events/Invariant.antt =====
-- The bins of a pool under each arm of `LBPool::apply_log` (src/lb/pool.rs).
use evm_dex_pool.Base.{
  ℕ, ◌≡◌, Bool, true, false, List, [], ◌∷◌, Option, none, some, arith, if◌then◌else◌,
}
use evm_dex_pool.Uint
use evm_dex_pool.Uint.{Fits, checked_add-Fits, try_into-Fits}
use evm_dex_pool.BTreeMap.{BTreeMap}
use evm_dex_pool.Lb.Math.{decode_amounts}
use evm_dex_pool.Lb.Pool.{LbPool, Bin}
use evm_dex_pool.Lb.Pool.Bins.{AreBins, set_bin-AreBins, bin_at-Fits}
use evm_dex_pool.Lb.Events.{
  Topic, swap_topic, composition_fees_topic, deposited_topic, withdrawn_topic, static_fee_topic,
  flash_loan_topic, swap_v20_topic, deposited_v20_topic, withdrawn_v20_topic, other_topic, LbLog,
  dispatch, apply_log,
}
use evm_dex_pool.Lb.Events.Arms.{
  Applied, require_rule, SwapData, FlashLoanData, SwapV20, BinV20, change_bin, moved, clamp_id,
  add_to, take_off, change_bins, swap, composition_fees, deposited_to_bins, withdrawn_from_bins,
  static_fee_parameters_set, flash_loan, swap_v20, deposited_to_bin_v20, withdrawn_from_bin_v20,
}

-- What the ABI types of the v2.1 events say of the decoded fields: ids fit `u32`, packed amounts
-- are bytes. Nothing is asked of the v2.0 fields, which are all `uint256`.
pub record IsTyped (l : LbLog) : Type 0 where
  pub swap_id : (log : l.Log) (d : SwapData) → l.swap_data log ≡ some d → Fits 32 d.id
  pub flash_loan_id :
      (log : l.Log) (d : FlashLoanData) → l.flash_loan_data log ≡ some d → Fits 32 d.active_id

module _ (bins : BTreeMap Bin) (b : AreBins bins) where
  -- A bin is changed within `u128`.
  pub change_bin-AreBins :
      (id : ℕ) (f g : ℕ → ℕ)
      → Fits 32 id
      → ((r : ℕ) → Fits 128 r → Fits 128 (f r))
      → ((r : ℕ) → Fits 128 r → Fits 128 (g r))
      → AreBins (change_bin bins id f g)
  unfolding change_bin
  change_bin-AreBins id f g h hf hg =
      set_bin-AreBins bins id _ _ b h (hf _ (bin_at-Fits bins id b).0)
        (hg _ (bin_at-Fits bins id b).1)

pub add_to-Fits : (a r : ℕ) → Fits 128 r → Fits 128 (add_to a r)
unfolding add_to Uint.saturating_add
add_to-Fits a r h = omega arith

pub take_off-Fits : (a r : ℕ) → Fits 128 r → Fits 128 (take_off a r)
unfolding take_off
take_off-Fits a r h = omega arith

moved-Fits : (i o r : ℕ) → Fits 128 r → Fits 128 (moved i o r)
unfolding moved Uint.saturating_add
moved-Fits i o r h = omega arith

pub clamp_id-Fits : (id : ℕ) → Fits 32 (clamp_id id)
unfolding clamp_id
clamp_id-Fits id = ground arith

pub change_bins-AreBins :
    (f : ℕ → ℕ → ℕ) (keeps : (a r : ℕ) → Fits 128 r → Fits 128 (f a r)) (ids : List ℕ)
    (amounts : List (List ℕ)) (bins : BTreeMap Bin)
    → AreBins bins
    → AreBins (change_bins f ids amounts bins)
unfolding change_bins
change_bins-AreBins f keeps [] amounts bins b = b
change_bins-AreBins f keeps (id ∷ ids) [] bins b = b
change_bins-AreBins f keeps (id ∷ ids) (a ∷ amounts) bins b =
    let (x, y) = decode_amounts a in
    change_bins-AreBins f keeps ids amounts (change_bin bins (clamp_id id) (f x) (f y))
      (change_bin-AreBins bins b (clamp_id id) (f x) (f y) (clamp_id-Fits id) (keeps x) (keeps y))

-- The pool that a handler leaves behind has well-formed bins. A type of its own, so that the rule
-- for `require` finds its arguments in the goal.
data Kept (a : Applied) : Type 0 where
  kept : AreBins a.0.bins → Kept a

Kept→AreBins : (a : Applied) → Kept a → AreBins a.0.bins
Kept→AreBins a (kept b) = b

module _ (p : LbPool) (b : AreBins p.bins) where
  swap-AreBins : (d : SwapData) (ts now : ℕ) → Fits 32 d.id → AreBins (swap p d ts now).0.bins
  unfolding swap
  swap-AreBins d ts now h = change_bin-AreBins p.bins b d.id _ _ h (moved-Fits _ _) (moved-Fits _ _)

  flash_loan-AreBins :
      (d : FlashLoanData) (now : ℕ) → Fits 32 d.active_id → Kept (flash_loan p d now)
  unfolding flash_loan
  flash_loan-AreBins d now h = require_rule Kept _ _ p _ (kept b) λ net_x _.
      require_rule Kept _ _ p _ (kept b) λ net_y _. require_rule Kept _ _ p _ (kept b) λ new_rx ex.
        require_rule Kept _ _ p _ (kept b) λ new_ry ey. kept (
          set_bin-AreBins p.bins d.active_id new_rx new_ry b h (checked_add-Fits _ _ _ _ ex)
            (checked_add-Fits _ _ _ _ ey))

  swap_v20-AreBins : (d : SwapV20) (ts now : ℕ) → Kept (swap_v20 p d ts now)
  unfolding swap_v20
  swap_v20-AreBins d ts now = require_rule Kept _ _ p _ (kept b) λ id e.
      require_rule Kept _ _ p _ (kept b) λ amount_in _.
        require_rule Kept _ _ p _ (kept b) λ amount_out _.
          let written : AreBins _ =
            both d.swap_for_y id amount_in amount_out (try_into-Fits _ _ _ e) in
          require_rule Kept _ _ _ _ (kept written) λ acc _. kept written
    where
      both :
          (y : Bool) (id amount_in amount_out : ℕ)
          → Fits 32 id
          → AreBins (
              if y
              then change_bin p.bins id (add_to amount_in) (take_off amount_out)
              else change_bin p.bins id (take_off amount_out) (add_to amount_in))
      both true id i o h = change_bin-AreBins p.bins b id _ _ h (add_to-Fits i) (take_off-Fits o)
      both false id i o h = change_bin-AreBins p.bins b id _ _ h (take_off-Fits o) (add_to-Fits i)

  deposited_v20-AreBins : (d : BinV20) (ts : ℕ) → Kept (deposited_to_bin_v20 p d ts)
  unfolding deposited_to_bin_v20
  deposited_v20-AreBins d ts = require_rule Kept _ _ p _ (kept b) λ id e.
      require_rule Kept _ _ p _ (kept b) λ x _. require_rule Kept _ _ p _ (kept b) λ y _.
        kept (
          change_bin-AreBins p.bins b id _ _ (try_into-Fits _ _ _ e) (add_to-Fits x)
            (add_to-Fits y))

  withdrawn_v20-AreBins : (d : BinV20) (ts : ℕ) → Kept (withdrawn_from_bin_v20 p d ts)
  unfolding withdrawn_from_bin_v20
  withdrawn_v20-AreBins d ts = require_rule Kept _ _ p _ (kept b) λ id e.
      require_rule Kept _ _ p _ (kept b) λ x _. require_rule Kept _ _ p _ (kept b) λ y _. kept (
        change_bin-AreBins p.bins b id _ _ (try_into-Fits _ _ _ e) (take_off-Fits x)
          (take_off-Fits y))

module _ (l : LbLog) (typed : IsTyped l) (p : LbPool) (b : AreBins p.bins) where
  dispatch-AreBins : (t : Option Topic) (log : l.Log) (now : ℕ) → Kept (dispatch l t p log now)
  unfolding dispatch composition_fees static_fee_parameters_set deposited_to_bins
      withdrawn_from_bins
  dispatch-AreBins none log now = kept b
  dispatch-AreBins (some swap_topic) log now =
      require_rule Kept (l.swap_data log) _ p _ (kept b)
        λ d e. kept (swap-AreBins p b d _ now (typed.swap_id log d e))
  dispatch-AreBins (some composition_fees_topic) log now =
      require_rule Kept _ _ p _ (kept b) λ d e. kept b
  dispatch-AreBins (some deposited_topic) log now =
      require_rule Kept (l.deposited_data log) _ p _ (kept b)
        λ d e. kept (change_bins-AreBins add_to add_to-Fits d.ids d.amounts p.bins b)
  dispatch-AreBins (some withdrawn_topic) log now =
      require_rule Kept (l.withdrawn_data log) _ p _ (kept b)
        λ d e. kept (change_bins-AreBins take_off take_off-Fits d.ids d.amounts p.bins b)
  dispatch-AreBins (some static_fee_topic) log now =
      require_rule Kept _ _ p _ (kept b) λ d e. kept b
  dispatch-AreBins (some flash_loan_topic) log now =
      require_rule Kept (l.flash_loan_data log) _ p _ (kept b)
        λ d e. flash_loan-AreBins p b d now (typed.flash_loan_id log d e)
  dispatch-AreBins (some swap_v20_topic) log now =
      require_rule Kept _ _ p _ (kept b) λ d e. swap_v20-AreBins p b d _ now
  dispatch-AreBins (some deposited_v20_topic) log now =
      require_rule Kept _ _ p _ (kept b) λ d e. deposited_v20-AreBins p b d _
  dispatch-AreBins (some withdrawn_v20_topic) log now =
      require_rule Kept _ _ p _ (kept b) λ d e. withdrawn_v20-AreBins p b d _
  dispatch-AreBins (some other_topic) log now = kept b

  -- If the ids that the bindings decode for v2.1 swaps and flash loans are `u32`s and the bins of
  -- the pool are sorted, non-empty and within their integer types, then they are so after any log,
  -- whether or not it is rejected on the way.
  pub apply_log-AreBins : (log : l.Log) (now : ℕ) → AreBins (apply_log l p log now).0.bins
  unfolding apply_log
  apply_log-AreBins log now = Kept→AreBins _ (dispatch-AreBins (l.topic0 log) log now)
