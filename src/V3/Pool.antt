-- ===== src/V3/Pool.antt =====
-- `UniswapV3Pool` of src/v3/pool.rs: its state, the ticks (src/v3/tick.rs) that mints and burns
-- move, and the record of mispriced swaps. An `i32` tick t is the number t + 2^31, so that the
-- order of the ticks is that of the keys.
pub mod Ticks
pub mod History
pub mod Burns
use evm_dex_pool.Base.{
  ℕ, ◌+◌, ◌-◌, ◌^◌, Bool, true, false, not, ◌&&◌, ◌||◌, ltb, leb, ◌==◌, if◌then◌else◌, List, [],
  ◌∷◌, ◌++◌, length, Option, none, some, Error, invalid_tick_range, uninitialized_tick, zero_price,
  tick_out_of_bounds,
}
use evm_dex_pool.Base.Int
use evm_dex_pool.Base.Int.{ℤ, signed}
use evm_dex_pool.Base.Sort.{count}
use evm_dex_pool.BTreeMap
use evm_dex_pool.BTreeMap.{BTreeMap}
use evm_dex_pool.Uint

pub record Tick : Type 0 where
  pub index : ℕ
  pub liquidity_net : ℤ
  pub liquidity_gross : ℕ

pub data V3PoolType : Type 0 where
  uniswap_v3 pancake_v3 algebra_v3 algebra_two_side_fee algebra_pool_fee_in_state ramses_cl :
      V3PoolType

pub data FeeSource : Type 0 where
  unknown events read_fee read_current_fee : FeeSource

pub record UniswapV3Pool : Type 0 where
  pub pool_type : V3PoolType
  pub address : ℕ
  pub token0 : ℕ
  pub token1 : ℕ
  pub fee : ℕ
  pub tick_spacing : ℕ
  pub sqrt_price_x96 : ℕ
  pub tick : ℕ
  pub liquidity : ℕ
  pub ticks : BTreeMap Tick
  pub factory : ℕ
  pub last_updated : ℕ
  pub created_at : ℕ
  pub fee_source : FeeSource
  pub swap_fee_misses : List Bool

abbrev swap_fee_window : ℕ
swap_fee_window = 10

abbrev swap_fee_misses_to_stop : ℕ
swap_fee_misses_to_stop = 3

-- Made at the time `now`.
unfoldable pub new :
    (address token0 token1 fee tick_spacing sqrt_price_x96 tick liquidity factory now : ℕ)
    → V3PoolType
    → UniswapV3Pool
new address token0 token1 fee tick_spacing sqrt_price_x96 tick liquidity factory now pool_type =
    record {
      pool_type = pool_type;
      address = address;
      token0 = token0;
      token1 = token1;
      fee = fee;
      tick_spacing = tick_spacing;
      sqrt_price_x96 = sqrt_price_x96;
      tick = tick;
      liquidity = liquidity;
      ticks = [];
      factory = factory;
      last_updated = now;
      created_at = now;
      fee_source = unknown;
      swap_fee_misses = [];
    }

unfoldable pub fee_needs_reading : UniswapV3Pool → Bool
fee_needs_reading p = elim p.fee_source [
  | read_fee ↦ true
  | read_current_fee ↦ true
  | unknown ↦ elim p.pool_type [
    | algebra_v3 ↦ true
    | ramses_cl ↦ true
    | uniswap_v3 ↦ false
    | pancake_v3 ↦ false
    | algebra_two_side_fee ↦ false
    | algebra_pool_fee_in_state ↦ false
  ]
  | events ↦ false
]

unfoldable pub fee_unpredictable : UniswapV3Pool → Bool
fee_unpredictable p = leb swap_fee_misses_to_stop (count (λ missed. missed) p.swap_fee_misses)

abbrev without_first : List Bool → List Bool
without_first [] = []
without_first (miss ∷ misses) = misses

-- Less the warnings.
unfoldable pub record_swap_fee : UniswapV3Pool → Bool → UniswapV3Pool
record_swap_fee p missed =
    let misses = p.swap_fee_misses ++ (missed ∷ []) in
    if ltb swap_fee_window (length misses)
    then record p { swap_fee_misses = without_first misses }
    else record p { swap_fee_misses = misses }

-- At the time `now`.
unfoldable pub update_state : UniswapV3Pool → ℕ → ℕ → ℕ → ℕ → UniswapV3Pool × Option Error
update_state p sqrt_price_x96 tick liquidity now =
    if sqrt_price_x96 == 0
    then (p, some zero_price)
    else if ltb tick (2 ^ 31 - 887272) || ltb (2 ^ 31 + 887272) tick
    then (p, some tick_out_of_bounds)
    else (
      record p {
        sqrt_price_x96 = sqrt_price_x96;
        tick = tick;
        liquidity = liquidity;
        last_updated = now;
      },
      none,
    )

unfoldable pub update_tick : UniswapV3Pool → ℕ → ℤ → ℕ → UniswapV3Pool
update_tick p index liquidity_net liquidity_gross =
    if liquidity_gross == 0 then record p { ticks = BTreeMap.remove index p.ticks } else record p {
      ticks =
          BTreeMap.insert index
            (record {
              index = index;
              liquidity_net = liquidity_net;
              liquidity_gross = liquidity_gross;
            })
            p.ticks;
    }

-- `if let Some(tick) = self.ticks.get_mut(&t)`, of a mint: the tick gets this net liquidity.
unfoldable pub mint_at : UniswapV3Pool → ℕ → (ℤ → ℤ) → ℤ → ℕ → Option Tick → UniswapV3Pool
unfolding update_tick
mint_at p t net_of fresh amount none = update_tick p t fresh amount
mint_at p t net_of fresh amount (some tick) = record p {
  ticks =
      BTreeMap.insert t
        (record tick {
          liquidity_net = net_of tick.liquidity_net;
          liquidity_gross = Uint.saturating_add 128 tick.liquidity_gross amount;
        })
        p.ticks;
}

abbrev pub in_range : UniswapV3Pool → ℕ → ℕ → Bool
in_range p tick_lower tick_upper = leb tick_lower p.tick && ltb p.tick tick_upper

unfoldable pub apply_mint_event : UniswapV3Pool → ℕ → ℕ → ℕ → UniswapV3Pool × Option Error
unfolding mint_at
apply_mint_event p tick_lower tick_upper amount =
    if leb tick_upper tick_lower
    then (p, some invalid_tick_range)
    else let delta = signed 128 amount in
      let lower =
        mint_at p tick_lower (λ net. Int.saturating_add 128 net delta) delta amount
          (BTreeMap.get tick_lower p.ticks) in
      let upper =
        mint_at lower tick_upper (λ net. Int.saturating_sub 128 net delta)
          (Int.wrapping_neg 128 delta) amount (BTreeMap.get tick_upper lower.ticks) in
      (
        if in_range upper tick_lower tick_upper
            then record upper { liquidity = Uint.saturating_add 128 upper.liquidity amount }
            else upper,
        none,
      )

-- `if let Some(tick) = self.ticks.get_mut(&t)`, of a burn.
unfoldable pub burn_at :
    UniswapV3Pool → ℕ → (ℤ → ℤ) → ℕ → Option Tick → UniswapV3Pool × Option Error
unfolding update_tick
burn_at p t net_of amount none = (p, some uninitialized_tick)
burn_at p t net_of amount (some tick) =
    let debited = record p {
      ticks =
          BTreeMap.insert t
            (record tick {
              liquidity_net = net_of tick.liquidity_net;
              liquidity_gross = tick.liquidity_gross - amount;
            })
            p.ticks;
    } in
    (
      if tick.liquidity_gross - amount == 0
          then update_tick debited t tick.liquidity_net 0
          else debited,
      none,
    )

-- `?`
abbrev pub and_then :
    UniswapV3Pool × Option Error
    → (UniswapV3Pool → UniswapV3Pool × Option Error)
    → UniswapV3Pool × Option Error
and_then (p, some e) rest = (p, some e)
and_then (p, none) rest = rest p

abbrev pub has_tick : Option Tick → Bool
has_tick none = false
has_tick (some tick) = true

unfoldable pub apply_burn_event : UniswapV3Pool → ℕ → ℕ → ℕ → UniswapV3Pool × Option Error
unfolding burn_at
apply_burn_event p tick_lower tick_upper amount =
    if leb tick_upper tick_lower
    then (p, some invalid_tick_range)
    else if not (has_tick (BTreeMap.get tick_lower p.ticks))
    then (p, some uninitialized_tick)
    else if not (has_tick (BTreeMap.get tick_upper p.ticks))
    then (p, some uninitialized_tick)
    else let delta = signed 128 amount in
      and_then
        (burn_at p tick_lower (λ net. Int.saturating_sub 128 net delta) amount
          (BTreeMap.get tick_lower p.ticks))
        (λ lower.
          and_then
            (burn_at lower tick_upper (λ net. Int.saturating_add 128 net delta) amount
              (BTreeMap.get tick_upper lower.ticks))
            (λ upper. (
              if in_range upper tick_lower tick_upper
                  then record upper { liquidity = upper.liquidity - amount }
                  else upper,
              none,
            )))
