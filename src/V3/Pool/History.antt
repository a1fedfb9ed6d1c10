-- ===== src/V3/Pool/History.antt =====
-- The state of the pool of src/v3/pool.rs over any sequence of its events.
use evm_dex_pool.Base.{
  ℕ, ◌+◌, ◌-◌, ◌≤◌, ◌^◌, Bool, ltb, ◌||◌, ◌==◌, List, [], ◌∷◌, ◌++◌, length, length-append, All,
  arith, Bool-cases, inl, inr,
}
use evm_dex_pool.Uint.{Fits}
use evm_dex_pool.V3.Pool.{
  UniswapV3Pool, V3PoolType, new, without_first, record_swap_fee, update_state, apply_mint_event,
  apply_burn_event,
}
use evm_dex_pool.V3.Pool.Ticks.{IsConsistent, apply_mint-IsConsistent, apply_burn-IsConsistent}

-- What an event tells the pool.
pub data Change : Type 0 where
  minted burned : (tick_lower tick_upper amount : ℕ) → Change
  swapped : (sqrt_price_x96 tick liquidity now : ℕ) → Change
  fee_compared : (missed : Bool) → Change

abbrev pub change : UniswapV3Pool → Change → UniswapV3Pool
change p (minted tick_lower tick_upper amount) = (apply_mint_event p tick_lower tick_upper amount).0
change p (burned tick_lower tick_upper amount) = (apply_burn_event p tick_lower tick_upper amount).0
change p (swapped sqrt_price_x96 tick liquidity now) =
    (update_state p sqrt_price_x96 tick liquidity now).0
change p (fee_compared missed) = record_swap_fee p missed

abbrev pub changes : UniswapV3Pool → List Change → UniswapV3Pool
changes p [] = p
changes p (c ∷ cs) = changes (change p c) cs

-- Its liquidity is a `u128`.
abbrev pub IsSized : Change → Type 0
IsSized (minted tick_lower tick_upper amount) = Fits 128 amount
IsSized (burned tick_lower tick_upper amount) = Unit
IsSized (swapped sqrt_price_x96 tick liquidity now) = Fits 128 liquidity
IsSized (fee_compared missed) = Unit

update_state-IsConsistent :
    (p : UniswapV3Pool) (sqrt_price_x96 tick liquidity now : ℕ)
    → Fits 128 liquidity
    → IsConsistent p
    → IsConsistent (update_state p sqrt_price_x96 tick liquidity now).0
unfolding update_state
update_state-IsConsistent p price tick liquidity now f h = elim (Bool-cases (price == 0)) [
  | inl free ↦ simp free h
  | inr priced ↦ elim (Bool-cases (ltb tick (2 ^ 31 - 887272) || ltb (2 ^ 31 + 887272) tick)) [
    | inl outside ↦ simp (priced, outside) h
    | inr inside ↦
        simp (priced, inside)
          (record {
            sorted = h.sorted;
            ticks_are = h.ticks_are;
            liquidity_fits = f;
            window = h.window;
          })
  ]
]

without_first-length :
    (misses : List Bool) → length misses ≤ 11 → length (without_first misses) ≤ 10
without_first-length [] h = omega arith
without_first-length (miss ∷ misses) h = omega (arith, h)

record_swap_fee-IsConsistent :
    (p : UniswapV3Pool) (missed : Bool) → IsConsistent p → IsConsistent (record_swap_fee p missed)
unfolding record_swap_fee
record_swap_fee-IsConsistent p missed h =
    let misses = p.swap_fee_misses ++ (missed ∷ []) in
    let longer = length-append p.swap_fee_misses (missed ∷ []) in
    elim (Bool-cases (ltb 10 (length misses))) [
      | inl full ↦ simp full (record {
        sorted = h.sorted;
        ticks_are = h.ticks_are;
        liquidity_fits = h.liquidity_fits;
        window = without_first-length misses (omega (arith, longer, h.window));
      })
      | inr room ↦ simp room (record {
        sorted = h.sorted;
        ticks_are = h.ticks_are;
        liquidity_fits = h.liquidity_fits;
        window = ground (arith, room);
      })
    ]

change-IsConsistent :
    (p : UniswapV3Pool) (c : Change) → IsSized c → IsConsistent p → IsConsistent (change p c)
change-IsConsistent p (minted l u amount) f h = apply_mint-IsConsistent p l u amount f h
change-IsConsistent p (burned l u amount) f h = apply_burn-IsConsistent p l u amount h
change-IsConsistent p (swapped price tick liquidity now) f h =
    update_state-IsConsistent p price tick liquidity now f h
change-IsConsistent p (fee_compared missed) f h = record_swap_fee-IsConsistent p missed h

changes_from-IsConsistent :
    (cs : List Change) (p : UniswapV3Pool)
    → All IsSized cs
    → IsConsistent p
    → IsConsistent (changes p cs)
changes_from-IsConsistent [] p fs h = h
changes_from-IsConsistent (c ∷ cs) p (f, fs) h =
    changes_from-IsConsistent cs (change p c) fs (change-IsConsistent p c f h)

-- After any sequence of mints, burns, swap events and fee comparisons, applied or refused, a new V3
-- pool whose liquidity, like that of the mints and swaps, is of 128 bits keeps its ticks in order,
-- each under its own index and with a positive liquidity of 128 bits; the current liquidity has 128
-- bits, and at most ten comparisons are remembered.
pub changes-IsConsistent :
    (cs : List Change)
    (address token0 token1 fee tick_spacing sqrt_price_x96 tick liquidity factory now : ℕ)
    (pool_type : V3PoolType)
    → Fits 128 liquidity
    → All IsSized cs
    → IsConsistent (
        changes
          (new address token0 token1 fee tick_spacing sqrt_price_x96 tick liquidity factory now
            pool_type)
          cs)
unfolding new
changes-IsConsistent cs address token0 token1 fee spacing price tick liquidity factory now pool_type
      f fs =
    changes_from-IsConsistent cs
      (new address token0 token1 fee spacing price tick liquidity factory now pool_type) fs
      (record { sorted = tt; ticks_are = tt; liquidity_fits = f; window = omega arith })
