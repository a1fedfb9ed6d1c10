-- ===== src/Lb/Math/Price.antt =====
-- Bounds of the bin prices of src/lb/math.rs.
use evm_dex_pool.Base.{
  ℕ, zero, suc, ◌+◌, ◌-◌, ◌/◌, ◌^◌, ◌≤◌, ◌<◌, ◌≡◌, ◌⊎◌, true, false, arith, lt→ltb,
}
use evm_dex_pool.Base.Int.{pos, negsuc, unsigned_abs}
use evm_dex_pool.Base.Division.{mul_bound, div-lt, le-div}
use evm_dex_pool.Uint
use evm_dex_pool.Uint.{Fits}
use evm_dex_pool.Lb.Math.{
  scale, u256_max, real_id_shift, get_base, get_exponent, mul_128x128, pow_loop, pow_nonzero,
  pow_128x128, get_price_from_id,
}

mul_128x128-le : (a b : ℕ) → a ≤ scale → b ≤ scale → mul_128x128 a b ≤ scale
unfolding mul_128x128
mul_128x128-le a b h k = omega (arith, mul_bound a b scale scale h k)

pow_loop-le :
    (rounds bit abs_y result squared : ℕ)
    → result ≤ scale
    → squared ≤ scale
    → pow_loop rounds bit abs_y result squared ≤ scale
unfolding pow_loop
pow_loop-le zero bit abs_y result squared h k = h
pow_loop-le (suc rounds) bit abs_y result squared h k =
    pow_loop-le rounds (bit + 1) abs_y _ (mul_128x128 squared squared)
      (ground (arith, mul_128x128-le result squared h k)) (mul_128x128-le squared squared k k)

-- A base above 1.0 is inverted, to at most 1.0.
inverse-le : (x : ℕ) → scale < x → u256_max / x ≤ scale
inverse-le x h =
    let l : u256_max / x < suc scale = div-lt (suc scale) u256_max x (omega arith) (omega arith) in
    omega arith

inverse-ge : (r : ℕ) → 0 < r → r ≤ scale → scale - 1 ≤ u256_max / r
inverse-ge r h k =
    le-div (scale - 1) u256_max r h
      (omega (arith, mul_bound (scale - 1) r (scale - 1) scale (omega arith) k))

module _ (x abs_y : ℕ) (above : scale < x) where
  loop_bound : pow_loop 20 0 abs_y scale (u256_max / x) ≤ scale
  loop_bound = pow_loop-le 20 0 abs_y scale (u256_max / x) (omega arith) (inverse-le x above)

  pow_nonzero-falling : pow_nonzero x abs_y true ≤ scale
  unfolding pow_nonzero
  pow_nonzero-falling = rw (lt→ltb scale x above) (ground (arith, loop_bound))

  pow_nonzero-rising : (pow_nonzero x abs_y false ≡ 0) ⊎ (scale - 1 ≤ pow_nonzero x abs_y false)
  unfolding pow_nonzero
  pow_nonzero-rising =
      rw (lt→ltb scale x above)
        (ground (arith, loop_bound, inverse-ge (pow_loop 20 0 abs_y scale (u256_max / x))))

module _ (id bin_step : ℕ) (step : 0 < bin_step) (small : Fits 16 bin_step) where
  get_base-gt : scale < get_base bin_step
  unfolding get_base Uint.add Uint.shl
  get_base-gt = omega arith

  exponent_below : id < real_id_shift → get_exponent id ≡ negsuc (real_id_shift - id - 1)
  unfolding get_exponent Uint.sub
  exponent_below h = ground arith

  exponent_above : real_id_shift ≤ id → id < 2 ^ 31 → get_exponent id ≡ pos (id - real_id_shift)
  unfolding get_exponent Uint.sub
  exponent_above h k = ground arith

  -- For a positive bin step of 16 bits the price of a bin below the centre is at most 1.0.
  pub price_below : id < real_id_shift → get_price_from_id id bin_step ≤ scale
  unfolding get_price_from_id pow_128x128
  price_below h = rw (exponent_below h) (
      ground
        (arith, pow_nonzero-falling (get_base bin_step) (suc (real_id_shift - id - 1)) get_base-gt))

  -- For a positive bin step of 16 bits and an id from the centre up, below 2^31, the price is at
  -- least 1.0, up to one unit of rounding, unless it is zero.
  pub price_above :
      real_id_shift ≤ id
      → id < 2 ^ 31
      → (get_price_from_id id bin_step ≡ 0) ⊎ (scale - 1 ≤ get_price_from_id id bin_step)
  unfolding get_price_from_id pow_128x128
  price_above h k =
      rw (exponent_above h k)
        (ground (arith, pow_nonzero-rising (get_base bin_step) (id - real_id_shift) get_base-gt))

inverse-Fits : (r : ℕ) → 0 < r → u256_max / r < 2 ^ 256
inverse-Fits r h = div-lt (2 ^ 256) u256_max r h (grind arith)

-- For a positive bin step of 16 bits the price of every bin is a `U256`.
pub price-Fits :
    (id bin_step : ℕ) → 0 < bin_step → Fits 16 bin_step → Fits 256 (get_price_from_id id bin_step)
unfolding get_price_from_id pow_128x128 pow_nonzero
price-Fits id bin_step step small =
    rw (lt→ltb scale (get_base bin_step) (get_base-gt id bin_step step small)) (
      ground (
        arith,
        loop_bound (get_base bin_step) (unsigned_abs (get_exponent id))
            (get_base-gt id bin_step step small),
        inverse-Fits
            (pow_loop 20 0 (unsigned_abs (get_exponent id)) scale (u256_max / get_base bin_step)),
      ))
