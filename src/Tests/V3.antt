-- ===== src/Tests/V3.antt =====
-- The theorems on src/v3 at concrete inputs.
use evm_dex_pool.Base.{◌+◌, ◌-◌, ◌≡◌, refl, ◌^◌, arith, true, List, [], ◌∷◌, uninitialized_tick}
use evm_dex_pool.Base.Int.{negsuc}
use evm_dex_pool.BTreeMap
use evm_dex_pool.V3.Pool.{UniswapV3Pool, new, uniswap_v3, update_tick, apply_burn_event}
use evm_dex_pool.V3.Pool.Ticks.{IsConsistent}
use evm_dex_pool.V3.Pool.History.{
  Change, minted, burned, swapped, fee_compared, changes, changes-IsConsistent,
}
use evm_dex_pool.V3.Pool.Burns.{burn-atomic}

abbrev pool : UniswapV3Pool
pool = new 1 2 3 3000 60 (2 ^ 96) (2 ^ 31) 0 4 5 uniswap_v3

-- A position around the current tick, moved, burned in part and then in whole.
abbrev history : List Change
history =
    minted (2 ^ 31 - 60) (2 ^ 31 + 60) 500
    ∷ fee_compared true
    ∷ swapped (2 ^ 96 + 7) (2 ^ 31 + 1) 500 6
    ∷ burned (2 ^ 31 - 60) (2 ^ 31 + 60) 200
    ∷ burned (2 ^ 31 - 60) (2 ^ 31 + 60) 300
    ∷ burned (2 ^ 31 - 60) (2 ^ 31 + 60) 1
    ∷ []

changes-IsConsistent_example :
    IsConsistent (changes (new 1 2 3 3000 60 (2 ^ 96) (2 ^ 31) 0 4 5 uniswap_v3) history)
changes-IsConsistent_example =
    changes-IsConsistent history 1 2 3 3000 60 (2 ^ 96) (2 ^ 31) 0 4 5 uniswap_v3 (omega arith)
      (omega arith, (tt, (omega arith, (tt, (tt, (tt, tt))))))

-- Only the lower end of the burned range has a tick.
abbrev half : UniswapV3Pool
half = update_tick pool 100 (negsuc 4) 5

burn-atomic_example : (apply_burn_event half 100 200 5).0 ≡ half
unfolding apply_burn_event update_tick BTreeMap.get BTreeMap.insert new
burn-atomic_example = burn-atomic half 100 200 5 uninitialized_tick (tt, tt) refl
