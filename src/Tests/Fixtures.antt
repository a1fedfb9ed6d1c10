-- ===== src/Tests/Fixtures.antt =====
-- A Liquidity Book pool of three bins around the centre, with the parameters of an AVAX/USDC pair.
use evm_dex_pool.Base.{true, [], ◌∷◌, none, arith}
use evm_dex_pool.Base.Division.{ceil_div}
use evm_dex_pool.BTreeMap.Range.{total}
use evm_dex_pool.Uint
use evm_dex_pool.BTreeMap.{BTreeMap}
use evm_dex_pool.Lb.Math.{
  get_price_from_id, get_base, get_exponent, pow_128x128, pow_nonzero, pow_loop, mul_128x128,
}
use evm_dex_pool.Lb.Pool.{LbPool, FeeParameters, Bin, v2_1}
use evm_dex_pool.Lb.Pool.Bins.{AreBins}
use evm_dex_pool.Lb.Swap.{reserve_out}
use evm_dex_pool.Lb.Swap.Bounds.{Quotable}

abbrev pub parameters : FeeParameters
parameters = record {
  base_factor = 8_000;
  filter_period = 30;
  decay_period = 120;
  reduction_factor = 5_000;
  variable_fee_control = 40_000;
  protocol_share = 1_000;
  max_volatility_accumulator = 350_000;
}

abbrev pub bins : BTreeMap Bin
bins = (8_388_607, (0, 500)) ∷ (8_388_608, (1_000, 1_000)) ∷ (8_388_609, (700, 0)) ∷ []

abbrev pub pool : LbPool
pool = record {
  address = 1;
  token_x = 10;
  token_y = 20;
  bin_step = 20;
  active_id = 8_388_608;
  bins = bins;
  fees = parameters;
  volatility_accumulator = 10_000;
  volatility_reference = 5_000;
  id_reference = 8_388_607;
  time_of_last_update = 1_000;
  last_updated = 1_000;
  created_at = 900;
  version = v2_1;
  hooks_parameters = none;
}

pub bins-AreBins : AreBins bins
bins-AreBins = ground arith

pub pool-Quotable : Quotable pool true
unfolding get_price_from_id get_base get_exponent pow_128x128 pow_nonzero pow_loop mul_128x128
    Uint.ops reserve_out ceil_div total
pool-Quotable = record {
  bins = bins-AreBins;
  ids = ground arith;
  active = ground arith;
  step = ground arith;
  step_fits = ground arith;
  solvent = ground arith;
  priced = ground arith;
}
