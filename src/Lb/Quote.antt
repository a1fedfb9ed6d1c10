-- ===== src/Lb/Quote.antt =====
-- The quotes of `LBPool` as a `PoolInterface` (src/lb/pool.rs). Addresses are numbers.
pub mod Laws
use evm_dex_pool.Base.{
  ℕ, Bool, true, false, ltb, ◌==◌, if◌then◌else◌, Outcome, ok, err, guard, ok_or, Error,
  token_not_in_pool, amount_too_large, insufficient_liquidity, ◌>>=◌, ◌>>◌,
}
use evm_dex_pool.Uint
use evm_dex_pool.Lb.Pool.{LbPool}
use evm_dex_pool.Lb.Swap.{SwapOut, SwapIn, simulate_swap_out_at, simulate_swap_in_at}

-- The direction of a swap by its input token, and by its output token.
unfoldable pub direction_in : LbPool → ℕ → Outcome Bool
direction_in p token_in =
    if token_in == p.token_x
    then ok true
    else if token_in == p.token_y
    then ok false
    else err token_not_in_pool

unfoldable pub direction_out : LbPool → ℕ → Outcome Bool
direction_out p token_out =
    if token_out == p.token_y
    then ok true
    else if token_out == p.token_x
    then ok false
    else err token_not_in_pool

unfoldable pub calculate_output_at : LbPool → ℕ → ℕ → ℕ → Outcome ℕ
calculate_output_at p token_in amount_in timestamp = do
  swap_for_y ← direction_in p token_in
  amount_in_128 ← ok_or (Uint.try_into 128 amount_in) amount_too_large
  r ← simulate_swap_out_at p amount_in_128 swap_for_y timestamp
  if ltb 0 r.amount_in_left then err insufficient_liquidity else ok r.amount_out

unfoldable pub calculate_input_at : LbPool → ℕ → ℕ → ℕ → Outcome ℕ
calculate_input_at p token_out amount_out timestamp = do
  swap_for_y ← direction_out p token_out
  amount_out_128 ← ok_or (Uint.try_into 128 amount_out) amount_too_large
  r ← simulate_swap_in_at p amount_out_128 swap_for_y timestamp
  if ltb 0 r.amount_out_left then err insufficient_liquidity else ok r.amount_in

-- The quotes without a context take the wall clock for the time of the swap.
unfoldable pub calculate_output : LbPool → ℕ → ℕ → ℕ → Outcome ℕ
unfolding calculate_output_at
calculate_output p token_in amount_in now = calculate_output_at p token_in amount_in now

unfoldable pub calculate_input : LbPool → ℕ → ℕ → ℕ → Outcome ℕ
unfolding calculate_input_at
calculate_input p token_out amount_out now = calculate_input_at p token_out amount_out now

-- `apply_swap` only notes the time: the reserves follow the logs.
unfoldable pub apply_swap : LbPool → ℕ → LbPool
apply_swap p now = record p { last_updated = now }
