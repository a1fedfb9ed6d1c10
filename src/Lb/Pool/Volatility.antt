-- ===== src/Lb/Pool/Volatility.antt =====
-- The volatility references and the accumulator of a pool.
use evm_dex_pool.Base.{ℕ, ◌+◌, ◌-◌, ◌*◌, ◌/◌, ◌≤◌, ◌<◌, ◌≡◌, ltb, if◌then◌else◌, arith, ◌^◌, min}
use evm_dex_pool.Base.Division.{mul_bound}
use evm_dex_pool.Uint
use evm_dex_pool.Uint.{Fits}
use evm_dex_pool.Lb.Pool.{LbPool, update_references, compute_volatility_accumulator, abs_diff}

-- What `updateReferences` of the pair computes, in unbounded numbers.
abbrev decayed : ℕ → ℕ → ℕ
decayed accumulator reduction_factor = accumulator * reduction_factor / 10_000

-- For ids, a reference and a cap of 32 bits the accumulator is the reference plus 10000 for each
-- bin of distance, up to the cap: nothing wraps.
pub compute_volatility_accumulator-exact :
    (p : LbPool) (id vol_ref id_ref : ℕ)
    → Fits 32 id
    → Fits 32 vol_ref
    → Fits 32 id_ref
    → Fits 32 p.max_volatility_accumulator
    → compute_volatility_accumulator p id vol_ref id_ref
      ≡ min (vol_ref + abs_diff id id_ref * 10_000) p.max_volatility_accumulator
unfolding compute_volatility_accumulator Uint.add Uint.mul
compute_volatility_accumulator-exact p id vol_ref id_ref h k l m = omega arith

-- At a time that is within the filter period of the last update the references do not move.
pub update_references_within :
    (p : LbPool) (timestamp : ℕ)
    → 0 < p.filter_period
    → timestamp < p.time_of_last_update + p.filter_period
    → update_references p timestamp ≡ (p.volatility_reference, p.id_reference)
unfolding update_references
update_references_within p timestamp f h = ground arith

-- With a positive filter period, an accumulator of 32 bits and a reduction factor of at most 100%,
-- at a time from the filter period on the id reference is the active bin, and the volatility
-- reference is the reduced accumulator before the decay period and zero from it on: nothing wraps.
pub update_references_after :
    (p : LbPool) (timestamp : ℕ)
    → 0 < p.filter_period
    → p.time_of_last_update + p.filter_period ≤ timestamp
    → Fits 32 p.volatility_accumulator
    → p.reduction_factor ≤ 10_000
    → update_references p timestamp ≡ (
      if ltb timestamp (p.time_of_last_update + p.decay_period)
          then decayed p.volatility_accumulator p.reduction_factor
          else 0,
      p.active_id,
    )
unfolding update_references Uint.mul
update_references_after p timestamp f h a r =
    ground (arith, mul_bound p.volatility_accumulator p.reduction_factor (2 ^ 32 - 1) 10_000)
