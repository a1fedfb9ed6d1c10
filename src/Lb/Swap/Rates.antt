-- ===== src/Lb/Swap/Rates.antt =====
-- Paying and buying in a bin at its rate: paying rounds up, buying rounds down.
use evm_dex_pool.Base.{ℕ, ◌*◌, ◌/◌, ◌^◌, ◌≤◌, ◌<◌, ◌≡◌, Bool, true, false, arith, ap}
use evm_dex_pool.Base.Division.{ceil_div, ceil_div_bounds, ceil_div_mono, div-lt, le-div}
use evm_dex_pool.Uint
use evm_dex_pool.Uint.{Fits}
use evm_dex_pool.Lb.Math.Shifts.{
  mul_shift_round_down-eq, mul_shift_round_up-eq, shift_div_round_down-eq, shift_div_round_up-eq,
}
use evm_dex_pool.Lb.Swap.{amount_to_pay, amount_bought}

-- `rate_in` units of input pay for `rate_out` units of output.
abbrev pub rate_in : Bool → ℕ → ℕ
rate_in true price = 2 ^ 128
rate_in false price = price

abbrev pub rate_out : Bool → ℕ → ℕ
rate_out true price = price
rate_out false price = 2 ^ 128

-- The price of `amount` in unbounded numbers, and what an input buys.
abbrev pub cost : Bool → ℕ → ℕ → ℕ
cost y price amount = ceil_div (amount * rate_in y price) (rate_out y price)

abbrev pub bought : Bool → ℕ → ℕ → ℕ
bought y price amount = amount * rate_out y price / rate_in y price

module _ (y : Bool) (price : ℕ) (positive : 0 < price) where
  pub rate_in_pos : 0 < rate_in y price
  rate_in_pos = ground arith

  pub rate_out_pos : 0 < rate_out y price
  rate_out_pos = ground arith

  -- Less than the full cost buys less than the full amount.
  pub bought-lt : (amount n : ℕ) → n < cost y price amount → bought y price n < amount
  bought-lt amount n h =
      div-lt amount (n * rate_out y price) (rate_in y price) rate_in_pos
        (grind (arith, ceil_div_bounds (amount * rate_in y price) (rate_out y price) rate_out_pos))

  -- The cost buys at least the amount.
  pub bought-cost : (amount : ℕ) → amount ≤ bought y price (cost y price amount)
  bought-cost amount =
      le-div amount _ (rate_in y price) rate_in_pos
        (ceil_div_bounds (amount * rate_in y price) (rate_out y price) rate_out_pos).0

  pub cost_mono : (a b : ℕ) → a ≤ b → cost y price a ≤ cost y price b
  cost_mono a b h = ceil_div_mono _ _ (rate_out y price) rate_out_pos (grind arith)

module _ (price : ℕ) (positive : 0 < price) (word : Fits 256 price) where
  pub amount_to_pay-eq :
      (y : Bool) (amount : ℕ)
      → Fits 128 amount
      → amount_to_pay y price amount ≡ Uint.to 128 (cost y price amount)
  unfolding amount_to_pay
  amount_to_pay-eq true amount h = ap (Uint.to 128) (shift_div_round_up-eq amount price h positive)
  amount_to_pay-eq false amount h = ap (Uint.to 128) (mul_shift_round_up-eq amount price h word)

  pub amount_bought-eq :
      (y : Bool) (amount : ℕ)
      → Fits 128 amount
      → amount_bought y price amount ≡ Uint.to 128 (bought y price amount)
  unfolding amount_bought
  amount_bought-eq true amount h = ap (Uint.to 128) (mul_shift_round_down-eq amount price h word)
  amount_bought-eq false amount h =
      ap (Uint.to 128) (shift_div_round_down-eq amount price h positive)
