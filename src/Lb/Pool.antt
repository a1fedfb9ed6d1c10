-- ===== src/Lb/Pool.antt =====
-- `LBPool` of src/lb/pool.rs: its state, the bins and the volatility parameters.
-- `now` is the wall clock, `chrono::Utc::now()`, wherever the source reads it.
pub mod Bins
pub mod Volatility
use evm_dex_pool.Base.{
  ℕ, ◌+◌, ◌-◌, ◌*◌, ◌/◌, ◌%◌, ◌^◌, min, Bool, true, false, leb, ltb, ◌==◌, ◌&&◌, ◌||◌,
  if◌then◌else◌, Option, none, some,
}
use evm_dex_pool.Uint
use evm_dex_pool.BTreeMap
use evm_dex_pool.BTreeMap.{BTreeMap}
use evm_dex_pool.Lb.Math

pub data LbVersion : Type 0 where
  v2_0 v2_1 v2_2 : LbVersion

abbrev default_version : LbVersion
default_version = v2_1

-- The reserves (x, y) of a bin.
abbrev pub Bin : Type 0
Bin = ℕ × ℕ

-- The static fee parameters of a pair.
pub record FeeParameters : Type 0 where
  pub base_factor : ℕ
  pub filter_period : ℕ
  pub decay_period : ℕ
  pub reduction_factor : ℕ
  pub variable_fee_control : ℕ
  pub protocol_share : ℕ
  pub max_volatility_accumulator : ℕ

pub record LbPool : Type 0 where
  pub address : ℕ
  pub token_x : ℕ
  pub token_y : ℕ
  pub bin_step : ℕ
  pub active_id : ℕ
  pub bins : BTreeMap Bin
  pub fees : FeeParameters
  pub open fees use *
  pub volatility_accumulator : ℕ
  pub volatility_reference : ℕ
  pub id_reference : ℕ
  pub time_of_last_update : ℕ
  pub last_updated : ℕ
  pub created_at : ℕ
  pub version : LbVersion
  pub hooks_parameters : Option ℕ

-- `LBPool::new`; the static fee parameters come as one record.
unfoldable pub new :
    (address token_x token_y bin_step active_id : ℕ)
    → BTreeMap Bin
    → FeeParameters
    → (volatility_accumulator volatility_reference id_reference time_of_last_update now : ℕ)
    → LbPool
new address token_x token_y bin_step active_id bins fees acc vol_ref id_ref updated now = record {
  address = address;
  token_x = token_x;
  token_y = token_y;
  bin_step = bin_step;
  active_id = active_id;
  bins = bins;
  fees = fees;
  volatility_accumulator = acc;
  volatility_reference = vol_ref;
  id_reference = id_ref;
  time_of_last_update = updated;
  last_updated = now;
  created_at = now;
  version = default_version;
  hooks_parameters = none;
}

unfoldable pub with_version : LbPool → LbVersion → LbPool
with_version p version = record p { version = version }

unfoldable pub with_hooks_parameters : LbPool → Option ℕ → LbPool
with_hooks_parameters p hooks = record p { hooks_parameters = hooks }

unfoldable pub total_fee : LbPool → ℕ
total_fee p =
    Math.get_total_fee p.base_factor p.bin_step p.volatility_accumulator p.variable_fee_control

-- `fee_raw`: from a fraction of 1e18 to one of 1e6.
unfoldable pub fee_raw : LbPool → ℕ
fee_raw p = total_fee p / 1_000_000_000_000 % 2 ^ 64

unfoldable pub contains_token : LbPool → ℕ → Bool
contains_token p token = token == p.token_x || token == p.token_y

abbrev pub key_of : Option (ℕ × Bin) → Option ℕ
key_of none = none
key_of (some (k, _)) = some k

unfoldable pub next_non_empty_bin : LbPool → Bool → ℕ → Option ℕ
next_non_empty_bin p true id = key_of (BTreeMap.last_below id p.bins)
next_non_empty_bin p false id = key_of (BTreeMap.first_from (Uint.add 32 id 1) p.bins)

-- `update_bin`, on the map that it changes.
unfoldable pub set_bin : BTreeMap Bin → ℕ → ℕ → ℕ → BTreeMap Bin
set_bin bins id reserve_x reserve_y =
    if reserve_x == 0 && reserve_y == 0
    then BTreeMap.remove id bins
    else BTreeMap.insert id (reserve_x, reserve_y) bins

unfoldable pub update_bin : LbPool → ℕ → ℕ → ℕ → LbPool
update_bin p id reserve_x reserve_y = record p { bins = set_bin p.bins id reserve_x reserve_y }

-- `bins.get(&id).copied().unwrap_or((0, 0))`
abbrev or_empty : Option Bin → Bin
or_empty none = (0, 0)
or_empty (some b) = b

unfoldable pub bin_at : BTreeMap Bin → ℕ → Bin
bin_at bins id = or_empty (BTreeMap.get id bins)

-- The pair (volatility reference, id reference) at a time.
unfoldable pub update_references : LbPool → ℕ → ℕ × ℕ
update_references p timestamp =
    let dt : ℕ = timestamp - p.time_of_last_update in
    if leb p.filter_period dt
    then (
      if ltb dt p.decay_period
          then Uint.mul 64 p.volatility_accumulator p.reduction_factor / 10_000 % 2 ^ 32
          else 0,
      p.active_id,
    )
    else (p.volatility_reference, p.id_reference)

abbrev pub abs_diff : ℕ → ℕ → ℕ
abs_diff a b = a - b + (b - a)

unfoldable pub compute_volatility_accumulator : LbPool → ℕ → ℕ → ℕ → ℕ
compute_volatility_accumulator p id vol_ref id_ref =
    let vol_acc = Uint.add 64 vol_ref (Uint.mul 64 (abs_diff id id_ref) 10_000) in
    min vol_acc p.max_volatility_accumulator % 2 ^ 32
