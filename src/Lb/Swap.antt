-- ===== src/Lb/Swap.antt =====
-- The swap simulations of src/lb/pool.rs. Both walk the bins from the active one in the direction
-- of the swap; the walk is written once, over what a bin does to the state of the simulation.
pub mod Walk
pub mod Rates
pub mod Fill
pub mod Bounds
pub mod Ahead
pub mod Out
pub mod In
use evm_dex_pool.Base.{
  ℕ, zero, suc, ◌+◌, ◌-◌, ◌*◌, ◌≤◌, min, Bool, true, false, ltb, leb, ◌==◌, if◌then◌else◌, Option,
  none, some, Outcome, ok, err, panic, out_of_fuel, ◌>>=◌, length,
}
use evm_dex_pool.Uint
use evm_dex_pool.BTreeMap
use evm_dex_pool.Lb.Math.{
  scale_offset, get_total_fee, get_price_from_id, get_fee_amount, get_fee_amount_from,
  mul_shift_round_down, mul_shift_round_up, shift_div_round_down, shift_div_round_up,
}
use evm_dex_pool.Lb.Pool.{
  LbPool, Bin, next_non_empty_bin, update_references, compute_volatility_accumulator,
}

-- `loop { visit the bin; if done { break } match next { Some(id) => .., None => break } }`
unfoldable pub walk_bins {ℓ} :
    {S : Type ℓ} → ℕ → (ℕ → S → Outcome S) → (S → Bool) → (ℕ → Option ℕ) → ℕ → S → Outcome S
walk_bins zero visit done next id s = out_of_fuel
walk_bins (suc fuel) visit done next id s = do
  s' ← visit id s
  if done s'
      then ok s'
      else elim (next id) [ none ↦ ok s' | some id' ↦ walk_bins fuel visit done next id' s' ]

-- The reserve that the swap takes from, 0 where the bin is not stored.
unfoldable pub reserve_out : Bool → Option Bin → ℕ
reserve_out swap_for_y none = 0
reserve_out swap_for_y (some (rx, ry)) = if swap_for_y then ry else rx

-- The input, before fees, that buys `amount` out of a bin.
unfoldable pub amount_to_pay : Bool → ℕ → ℕ → Outcome ℕ
amount_to_pay swap_for_y price amount = Uint.to 128 (
    if swap_for_y
    then shift_div_round_up amount scale_offset price
    else mul_shift_round_up amount price scale_offset)

-- What an input without fees buys out of a bin.
unfoldable pub amount_bought : Bool → ℕ → ℕ → Outcome ℕ
amount_bought swap_for_y price amount = Uint.to 128 (
    if swap_for_y
    then mul_shift_round_down amount price scale_offset
    else shift_div_round_down amount scale_offset price)

-- The fee of a bin, with the accumulator that the swap has there.
unfoldable pub fee_at : LbPool → ℕ × ℕ → ℕ → ℕ
fee_at p (vol_ref, id_ref) id =
    get_total_fee p.base_factor p.bin_step (compute_volatility_accumulator p id vol_ref id_ref)
      p.variable_fee_control

-- `getSwapOut` in one bin: (amount_in_bin, fee_bin, amount_out_bin).
unfoldable pub fill_bin : Bool → ℕ → ℕ → ℕ → ℕ → Outcome (ℕ × ℕ × ℕ)
fill_bin swap_for_y price fee bin_reserve_out amount_in_left = do
  max_amount_in ← amount_to_pay swap_for_y price bin_reserve_out
  max_fee ← get_fee_amount max_amount_in fee
  let max_amount_in_with_fees = Uint.saturating_add 128 max_amount_in max_fee
  if leb max_amount_in_with_fees amount_in_left
      then ok (max_amount_in_with_fees, max_fee, bin_reserve_out)
      else (do
        fee_bin ← get_fee_amount_from amount_in_left fee
        amount_out ← amount_bought swap_for_y price (Uint.sub 128 amount_in_left fee_bin)
        ok (amount_in_left, fee_bin, min amount_out bin_reserve_out))

pub record SwapOut : Type 0 where
  pub amount_in_left : ℕ
  pub amount_out : ℕ
  pub total_fee : ℕ

-- `amount_in_left -= amount_in_bin; amount_out += amount_out_bin; total_fee += fee_bin`
unfoldable pub charge : SwapOut → ℕ × ℕ × ℕ → SwapOut
charge s (amount_in_bin, fee_bin, amount_out_bin) = record {
  amount_in_left = Uint.sub 128 s.amount_in_left amount_in_bin;
  amount_out = Uint.add 128 s.amount_out amount_out_bin;
  total_fee = Uint.add 128 s.total_fee fee_bin;
}

unfoldable pub visit_out : LbPool → Bool → ℕ × ℕ → ℕ → SwapOut → Outcome SwapOut
visit_out p swap_for_y refs id s =
    let out = reserve_out swap_for_y (BTreeMap.get id p.bins) in
    let filled =
      fill_bin swap_for_y (get_price_from_id id p.bin_step) (fee_at p refs id) out
        s.amount_in_left in
    if ltb 0 out then (do r ← filled; ok (charge s r)) else ok s

-- One visit to a bin for each key of the map, and one for the active bin.
abbrev pub walk_fuel : LbPool → ℕ
walk_fuel p = length p.bins + 1

unfoldable pub simulate_swap_out_at : LbPool → ℕ → Bool → ℕ → Outcome SwapOut
simulate_swap_out_at p amount_in swap_for_y timestamp =
    walk_bins (walk_fuel p) (visit_out p swap_for_y (update_references p timestamp))
      (λ s. s.amount_in_left == 0) (next_non_empty_bin p swap_for_y) p.active_id
      (record { amount_in_left = amount_in; amount_out = 0; total_fee = 0 })

-- With the wall clock for the time of the swap.
unfoldable pub simulate_swap_out : LbPool → ℕ → Bool → ℕ → Outcome SwapOut
unfolding simulate_swap_out_at
simulate_swap_out p amount_in swap_for_y now = simulate_swap_out_at p amount_in swap_for_y now

pub record SwapIn : Type 0 where
  pub amount_in : ℕ
  pub amount_out_left : ℕ
  pub total_fee : ℕ

-- The three assignments at the end of a bin.
unfoldable pub deliver : SwapIn → ℕ → ℕ → ℕ → SwapIn
deliver s amount_in_without_fee fee_amount amount_out_of_bin = record {
  amount_in = Uint.add 128 s.amount_in (Uint.add 128 amount_in_without_fee fee_amount);
  amount_out_left = Uint.sub 128 s.amount_out_left amount_out_of_bin;
  total_fee = Uint.add 128 s.total_fee fee_amount;
}

unfoldable pub visit_in : LbPool → Bool → ℕ × ℕ → ℕ → SwapIn → Outcome SwapIn
visit_in p swap_for_y refs id s =
    let out = reserve_out swap_for_y (BTreeMap.get id p.bins) in
    let amount_out_of_bin = min out s.amount_out_left in
    let paid = amount_to_pay swap_for_y (get_price_from_id id p.bin_step) amount_out_of_bin in
    if ltb 0 out
    then (do
      amount_in_without_fee ← paid
      fee_amount ← get_fee_amount amount_in_without_fee (fee_at p refs id)
      ok (deliver s amount_in_without_fee fee_amount amount_out_of_bin))
    else ok s

unfoldable pub simulate_swap_in_at : LbPool → ℕ → Bool → ℕ → Outcome SwapIn
simulate_swap_in_at p amount_out swap_for_y timestamp =
    walk_bins (walk_fuel p) (visit_in p swap_for_y (update_references p timestamp))
      (λ s. s.amount_out_left == 0) (next_non_empty_bin p swap_for_y) p.active_id
      (record { amount_in = 0; amount_out_left = amount_out; total_fee = 0 })

unfoldable pub simulate_swap_in : LbPool → ℕ → Bool → ℕ → Outcome SwapIn
unfolding simulate_swap_in_at
simulate_swap_in p amount_out swap_for_y now = simulate_swap_in_at p amount_out swap_for_y now
