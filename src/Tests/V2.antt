-- ===== src/Tests/V2.antt =====
-- The theorems on src/v2/pool.rs at concrete pairs and logs.
use evm_dex_pool.Base.{ℕ, ◌≡◌, refl, inl, ◌≤◌, List, [], ◌∷◌, some, ok, Returns, arith}
use evm_dex_pool.Uint
use evm_dex_pool.V2.{
  V2Pool, uniswap_v2, stable, contains_token, calculate_output, calculate_input, apply_swap, get_y,
  get_y_loop, get_y_round, f, d, k, normalise,
}
use evm_dex_pool.V2.Pair.{Funded}
use evm_dex_pool.V2.Swap.{Swapped, swap-Swapped}
use evm_dex_pool.V2.Cover.{input-covers, price_of}
use evm_dex_pool.V2.Stable.{Searched, get_y-Searched}
use evm_dex_pool.V2.Events.{
  V2Log, V2Topic, sync_topic, swap_topic, sync_uint256_topic, apply_logs, Replayed,
  apply_logs-Replayed,
}

abbrev pair : V2Pool
pair = record {
  pool_type = uniswap_v2;
  address = 1;
  token0 = 10;
  token1 = 20;
  decimals0 = 1_000_000_000_000_000_000;
  decimals1 = 1_000_000;
  reserve0 = 5_000_000;
  reserve1 = 80_000_000;
  fee = 3_000;
  last_updated = 900;
  created_at = 900;
}

pair-Funded : Funded pair
pair-Funded = record {
  constant = refl;
  fee_small = ground arith;
  fits0 = ground arith;
  fits1 = ground arith;
  pos0 = ground arith;
  pos1 = ground arith;
}

swap-Swapped_example :
    Returns (calculate_output pair 20 1_000_000) (λ out.
      Returns (apply_swap pair 20 1_000_000 out 1_000) (Swapped pair 20 1_000_000 out 1_000))
unfolding contains_token
swap-Swapped_example =
    swap-Swapped pair pair-Funded 20 1_000_000 1_000 refl (omega arith) (omega arith)

input-covers_example :
    (calculate_input pair 20 1_000_000 ≡ ok (price_of pair 10 1_000_000))
    × Returns (calculate_output pair 10 (price_of pair 10 1_000_000)) (λ out. 1_000_000 ≤ out)
input-covers_example =
    input-covers pair pair-Funded 10 20 1_000_000 (inl (refl, refl)) (ground arith) (omega arith)
      (omega arith) (omega arith)

-- A stable pair of two tokens of 18 decimals.
abbrev stable_pair : V2Pool
stable_pair = record {
  pool_type = stable;
  address = 2;
  token0 = 10;
  token1 = 20;
  decimals0 = 1_000_000_000_000_000_000;
  decimals1 = 1_000_000_000_000_000_000;
  reserve0 = 1_000_000_000_000_000_000_000;
  reserve1 = 1_000_000_000_000_000_000_000;
  fee = 100;
  last_updated = 900;
  created_at = 900;
}

get_y-Searched_example :
    Searched stable_pair 1_000_000_000_000_000_000_000 2_000_000_000_000_000_000_000_000_000_000 (
      get_y stable_pair 1_000_000_000_000_000_000_000 2_000_000_000_000_000_000_000_000_000_000
        999_000_000_000_000_000_000)
get_y-Searched_example =
    get_y-Searched stable_pair 1_000_000_000_000_000_000_000
      2_000_000_000_000_000_000_000_000_000_000 999_000_000_000_000_000_000

-- The search there succeeds.
get_y_test :
    get_y stable_pair 1_000_000_000_000_000_000_000 2_000_000_000_000_000_000_000_000_000_000
      999_000_000_000_000_000_000
    ≡ ok 1_000_000_000_000_000_000_000
unfolding get_y get_y_loop get_y_round f d k normalise Uint.ops
get_y_test = refl

-- A log is its topic and what it announces.
abbrev logs : V2Log
logs = record {
  Log = V2Topic × (ℕ × ℕ);
  topic0 = λ log. some log.0;
  sync = λ log. some log.1;
  sync_uint256 = λ log. some log.1;
}

abbrev three_logs : List logs.Log
three_logs = (sync_topic, (4, 5)) ∷ (sync_uint256_topic, (6, 7)) ∷ (swap_topic, (8, 9)) ∷ []

apply_logs-Replayed_example : Replayed logs pair three_logs (apply_logs logs pair three_logs 1_000)
apply_logs-Replayed_example = apply_logs-Replayed logs pair three_logs 1_000
