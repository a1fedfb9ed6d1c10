-- ===== src/V3.antt =====
-- Helpers of the V3 pools: liquidity deltas (src/v3/liquidity_math.rs) and rounding
-- division (src/v3/unsafe_math.rs).
pub mod Laws
pub mod Pool
use evm_dex_pool.Base.{
  ℕ, suc, ◌+◌, ◌/◌, ◌%◌, ◌^◌, leb, ltb, ◌==◌, if◌then◌else◌, Outcome, ok, err, Error,
  delta_overflow, ok_or, ◌>>=◌,
}
use evm_dex_pool.Base.Int.{ℤ, pos, negsuc}
use evm_dex_pool.Uint

-- `x.checked_add_signed(y)` on `u128`, with its error.
unfoldable pub add_delta : ℕ → ℤ → Outcome ℕ
add_delta x (pos n) = ok_or (Uint.checked_add 128 x n) delta_overflow
add_delta x (negsuc n) = ok_or (Uint.checked_sub x (suc n)) delta_overflow

-- On `U256`, where a zero divisor panics.
unfoldable pub div_rounding_up : ℕ → ℕ → Outcome ℕ
div_rounding_up a b = do
  quotient ← Uint.div a b
  let remainder = a % b
  if remainder == 0 then ok quotient else ok (Uint.add 256 quotient 1)
