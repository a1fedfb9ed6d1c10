-- ===== src/V2.antt =====
-- `UniswapV2Pool` of src/v2/pool.rs: constant-product and stable pairs. Addresses are numbers,
-- amounts are `U256`s, and `now` is the wall clock where the source reads it.
pub mod Product
pub mod Pair
pub mod Swap
pub mod Cover
pub mod Events
pub mod Stable
use evm_dex_pool.Base.{
  ℕ, zero, suc, ◌+◌, ◌-◌, ◌*◌, ◌/◌, ◌^◌, Bool, true, false, not, ltb, leb, ◌==◌, ◌&&◌, ◌||◌,
  if◌then◌else◌, Outcome, ok, err, panic, guard, ◌>>=◌, ◌>>◌, zero_input, zero_output,
  invalid_reserves, insufficient_liquidity, token_not_in_pool, no_convergence,
}
use evm_dex_pool.Uint

abbrev pub fee_denominator : ℕ
fee_denominator = 1_000_000

abbrev pub exp18 : ℕ
exp18 = 1_000_000_000_000_000_000

pub data PoolKind : Type 0 where
  uniswap_v2 stable : PoolKind

pub record V2Pool : Type 0 where
  pub pool_type : PoolKind
  pub address : ℕ
  pub token0 : ℕ
  pub token1 : ℕ
  pub decimals0 : ℕ
  pub decimals1 : ℕ
  pub reserve0 : ℕ
  pub reserve1 : ℕ
  pub fee : ℕ
  pub last_updated : ℕ
  pub created_at : ℕ

-- `10_u128.pow(decimals)` wraps at 128 bits.
unfoldable pub new :
    PoolKind → (address token0 token1 decimals_0 decimals_1 reserve0 reserve1 fee now : ℕ) → V2Pool
new kind address token0 token1 decimals_0 decimals_1 reserve0 reserve1 fee now = record {
  pool_type = kind;
  address = address;
  token0 = token0;
  token1 = token1;
  decimals0 = Uint.pow 128 10 decimals_0;
  decimals1 = Uint.pow 128 10 decimals_1;
  reserve0 = reserve0;
  reserve1 = reserve1;
  fee = fee;
  last_updated = now;
  created_at = now;
}

unfoldable pub update_reserves : V2Pool → ℕ → ℕ → ℕ → V2Pool
update_reserves p reserve0 reserve1 now = record p {
  reserve0 = reserve0;
  reserve1 = reserve1;
  last_updated = now;
}

unfoldable pub constant_product : V2Pool → ℕ
constant_product p = Uint.mul 256 p.reserve0 p.reserve1

unfoldable pub is_valid : V2Pool → Bool
is_valid p = not (p.reserve0 == 0) && not (p.reserve1 == 0)

-- The `UniswapV2` arm of `calculate_output_0_to_1` and `calculate_output_1_to_0`.
unfoldable pub product_output : ℕ → ℕ → ℕ → ℕ → Outcome ℕ
product_output fee reserve_in reserve_out amount_in = do
  let amount_in_with_fee = Uint.saturating_mul 256 amount_in (Uint.sub 256 fee_denominator fee)
  let numerator = Uint.mul 256 amount_in_with_fee reserve_out
  let denominator = Uint.add 256 (Uint.mul 256 reserve_in fee_denominator) amount_in_with_fee
  output ← Uint.div numerator denominator
  if leb reserve_out output then err insufficient_liquidity else ok output

-- A `U256` product scaled down, as the stable curve multiplies.
abbrev scaled : ℕ → ℕ → ℕ
scaled a b = Uint.mul 256 a b / exp18

-- `(v * exp18) / decimals`
unfoldable pub normalise : ℕ → ℕ → Outcome ℕ
normalise v decimals = Uint.div (Uint.mul 256 v exp18) decimals

-- The curve x³y + y³x at scaled reserves.
unfoldable pub f : ℕ → ℕ → ℕ
f x0 y = scaled (scaled x0 y) (Uint.add 256 (scaled x0 x0) (scaled y y))

-- Its slope 3xy² + x³.
unfoldable pub d : ℕ → ℕ → ℕ
d x0 y =
    Uint.add 256 (Uint.mul 256 (Uint.mul 256 3 x0) (scaled y y) / exp18) (scaled (scaled x0 x0) x0)

unfoldable pub k : V2Pool → ℕ → ℕ → Outcome ℕ
k p x y = elim p.pool_type [
  | stable ↦ do x' ← normalise x p.decimals0; y' ← normalise y p.decimals1; ok (f x' y')
  | uniswap_v2 ↦ ok (Uint.mul 256 x y)
]

-- What a round of `get_y` decides.
pub data Round : Type 0 where
  found : ℕ → Round
  move_to : ℕ → Round

unfoldable pub get_y_round : V2Pool → ℕ → ℕ → ℕ → Outcome Round
get_y_round p x0 xy y =
    let now = f x0 y in
    if ltb now xy
    then (do
      dy ← Uint.div (Uint.mul 256 (Uint.sub 256 xy now) exp18) (d x0 y)
      if dy == 0
          then (if now == xy then ok (found y) else (do
            above ← k p x0 (Uint.add 256 y 1)
            ok (if ltb xy above then found (Uint.add 256 y 1) else move_to (Uint.add 256 y 1))))
          else ok (move_to (Uint.add 256 y dy)))
    else (do
      dy ← Uint.div (Uint.mul 256 (Uint.sub 256 now xy) exp18) (d x0 y)
      if dy == 0
          then ok (
              if now == xy || ltb (f x0 (Uint.sub 256 y 1)) xy
              then found y
              else move_to (Uint.sub 256 y 1))
          else ok (move_to (Uint.sub 256 y dy)))

unfoldable pub get_y_loop : ℕ → V2Pool → ℕ → ℕ → ℕ → Outcome ℕ
get_y_loop zero p x0 xy y = err no_convergence
get_y_loop (suc rounds) p x0 xy y = do
  r ← get_y_round p x0 xy y
  elim r [ found y' ↦ ok y' | move_to y' ↦ get_y_loop rounds p x0 xy y' ]

unfoldable pub get_y : V2Pool → ℕ → ℕ → ℕ → Outcome ℕ
get_y = get_y_loop 255

unfoldable pub calculate_stable_output : V2Pool → ℕ → Bool → Outcome ℕ
calculate_stable_output p amount_in zero_for_one = do
  let amount_in_with_fee =
      Uint.saturating_mul 256 amount_in (Uint.sub 256 fee_denominator p.fee) / fee_denominator
  xy ← k p p.reserve0 p.reserve1
  reserve0 ← normalise p.reserve0 p.decimals0
  reserve1 ← normalise p.reserve1 p.decimals1
  let reserve_a = if zero_for_one then reserve0 else reserve1
  let reserve_b = if zero_for_one then reserve1 else reserve0
  let decimals_in = if zero_for_one then p.decimals0 else p.decimals1
  let decimals_out = if zero_for_one then p.decimals1 else p.decimals0
  amount_in_parsed ← normalise amount_in_with_fee decimals_in
  y ← get_y p (Uint.add 256 amount_in_parsed reserve_a) xy reserve_b
  ok (scaled (Uint.sub 256 reserve_b y) decimals_out)

-- The arms of a pool type behind the guards on the input.
unfoldable pub calculate_output_0_to_1 : V2Pool → ℕ → Outcome ℕ
calculate_output_0_to_1 p amount_in = do
  guard (not (amount_in == 0)) zero_input
  guard (is_valid p) invalid_reserves
  elim p.pool_type [
    | uniswap_v2 ↦ product_output p.fee p.reserve0 p.reserve1 amount_in
    | stable ↦ calculate_stable_output p amount_in true
  ]

unfoldable pub calculate_output_1_to_0 : V2Pool → ℕ → Outcome ℕ
calculate_output_1_to_0 p amount_in = do
  guard (not (amount_in == 0)) zero_input
  guard (is_valid p) invalid_reserves
  elim p.pool_type [
    | uniswap_v2 ↦ product_output p.fee p.reserve1 p.reserve0 amount_in
    | stable ↦ calculate_stable_output p amount_in false
  ]

-- `numerator / denominator + 1`, the same in both directions and for both types.
unfoldable pub product_input : ℕ → ℕ → ℕ → ℕ → Outcome ℕ
product_input fee reserve_in reserve_out amount_out = do
  let numerator = Uint.mul 256 (Uint.mul 256 reserve_in amount_out) fee_denominator
  let denominator =
      Uint.mul 256 (Uint.sub 256 reserve_out amount_out) (Uint.sub 256 fee_denominator fee)
  q ← Uint.div numerator denominator
  ok (Uint.add 256 q 1)

unfoldable pub calculate_input_0_to_1 : V2Pool → ℕ → Outcome ℕ
calculate_input_0_to_1 p amount_out = do
  guard (not (amount_out == 0)) zero_output
  guard (is_valid p) invalid_reserves
  guard (ltb amount_out p.reserve1) insufficient_liquidity
  product_input p.fee p.reserve0 p.reserve1 amount_out

unfoldable pub calculate_input_1_to_0 : V2Pool → ℕ → Outcome ℕ
calculate_input_1_to_0 p amount_out = do
  guard (not (amount_out == 0)) zero_output
  guard (is_valid p) invalid_reserves
  guard (ltb amount_out p.reserve0) insufficient_liquidity
  product_input p.fee p.reserve1 p.reserve0 amount_out

unfoldable pub calculate_output : V2Pool → ℕ → ℕ → Outcome ℕ
calculate_output p token_in amount_in =
    if token_in == p.token0
    then calculate_output_0_to_1 p amount_in
    else if token_in == p.token1
    then calculate_output_1_to_0 p amount_in
    else err token_not_in_pool

unfoldable pub calculate_input : V2Pool → ℕ → ℕ → Outcome ℕ
calculate_input p token_out amount_out =
    if token_out == p.token0
    then calculate_input_1_to_0 p amount_out
    else if token_out == p.token1
    then calculate_input_0_to_1 p amount_out
    else err token_not_in_pool

unfoldable pub apply_swap : V2Pool → ℕ → ℕ → ℕ → ℕ → Outcome V2Pool
apply_swap p token_in amount_in amount_out now =
    if token_in == p.token0
    then (do
      guard (ltb amount_out p.reserve1) insufficient_liquidity
      ok (record p {
        reserve0 = Uint.add 256 p.reserve0 amount_in;
        reserve1 = Uint.sub 256 p.reserve1 amount_out;
        last_updated = now;
      }))
    else if token_in == p.token1
    then (do
      guard (ltb amount_out p.reserve0) insufficient_liquidity
      ok (record p {
        reserve1 = Uint.add 256 p.reserve1 amount_in;
        reserve0 = Uint.sub 256 p.reserve0 amount_out;
        last_updated = now;
      }))
    else err token_not_in_pool

unfoldable pub contains_token : V2Pool → ℕ → Bool
contains_token p token = token == p.token0 || token == p.token1
