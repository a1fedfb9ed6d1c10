-- ===== src/Tests/Lb.antt =====
-- The theorems on src/lb/math.rs and on the quotes of src/lb/pool.rs at concrete inputs.
use evm_dex_pool.Base.{
  ℕ, ◌≡◌, refl, ◌⊎◌, ◌+◌, ◌-◌, ◌^◌, ◌≤◌, ◌<◌, true, ok, err, insufficient_liquidity, Returns, arith,
}
use evm_dex_pool.Base.Division.{ceil_div}
use evm_dex_pool.Lb.Math.{get_fee_amount, get_fee_amount_from, get_total_fee}
use evm_dex_pool.Lb.Math.Fees.{fee_round_trip, get_total_fee-exact, exact_total_fee}
use evm_dex_pool.Lb.Swap.{SwapOut, simulate_swap_out_at, simulate_swap_in_at}
use evm_dex_pool.Lb.Swap.Ahead.{reachable, capacity}
use evm_dex_pool.Lb.Swap.Out.{Settled, simulate_swap_out_at-Settled}
use evm_dex_pool.Lb.Swap.In.{simulate_swap_in_at-delivers}
use evm_dex_pool.Lb.Quote.{direction_in, direction_out, calculate_output_at, calculate_input_at}
use evm_dex_pool.Lb.Quote.Laws.{IsQuoted, calculate_output_at-decides, calculate_input_at-decides}
use evm_dex_pool.Tests.Fixtures.{pool, pool-Quotable}

simulate_swap_out_at-Settled_example :
    Returns (simulate_swap_out_at pool 1_200 true 1_050) (Settled pool true 1_200)
simulate_swap_out_at-Settled_example =
    simulate_swap_out_at-Settled pool 1_200 true 1_050 pool-Quotable (omega arith)

simulate_swap_in_at-delivers_example :
    Returns
      (simulate_swap_in_at pool 1_700 true 1_050)
      (λ r. r.amount_out_left ≡ 1_700 - reachable pool true)
simulate_swap_in_at-delivers_example =
    simulate_swap_in_at-delivers pool 1_700 true 1_050 pool-Quotable (omega arith)

calculate_output_at-decides_example :
    ((1_200 ≤ capacity pool true 1_050) × ((r : SwapOut) × IsQuoted pool 10 1_200 1_050 true r))
    ⊎ ((capacity pool true 1_050 < 1_200)
        × (calculate_output_at pool 10 1_200 1_050 ≡ err insufficient_liquidity))
unfolding direction_in
calculate_output_at-decides_example =
    calculate_output_at-decides pool 10 1_200 1_050 true pool-Quotable refl (omega arith)

calculate_input_at-decides_example :
    ((1_400 ≤ reachable pool true)
      × Returns (calculate_input_at pool 20 1_400 1_050) (λ _. Unit {0}))
    ⊎ ((reachable pool true < 1_400)
        × (calculate_input_at pool 20 1_400 1_050 ≡ err insufficient_liquidity))
unfolding direction_out
calculate_input_at-decides_example =
    calculate_input_at-decides pool 20 1_400 1_050 true pool-Quotable refl (omega arith)

-- The greatest net amount that goes without a fee.
fee_round_trip_example :
    (charged : ℕ) × (get_fee_amount (2 ^ 128 - 1) 0 ≡ ok charged)
    × (get_fee_amount_from (2 ^ 128 - 1 + charged) 0 ≡ ok charged)
unfolding ceil_div
fee_round_trip_example = fee_round_trip (2 ^ 128 - 1) 0 (omega arith) (omega arith)

get_total_fee-exact_example :
    get_total_fee 8_000 20 30_000 40_000 ≡ exact_total_fee 8_000 20 30_000 40_000
get_total_fee-exact_example =
    get_total_fee-exact 8_000 20 30_000 40_000 (omega arith) (omega arith) (omega arith)
      (omega arith)
