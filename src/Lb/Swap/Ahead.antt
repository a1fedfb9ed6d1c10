-- ===== src/Lb/Swap/Ahead.antt =====
-- What lies ahead of a swap of src/lb/pool.rs: the reserves that it can reach, and their cost.
use evm_dex_pool.Base.{ℕ, ◌≤◌, Bool}
use evm_dex_pool.Lb.Math.{get_price_from_id, max_fee}
use evm_dex_pool.Lb.Math.Fees.{get_total_fee-le}
use evm_dex_pool.Lb.Pool.{LbPool, Bin, update_references}
use evm_dex_pool.Lb.Swap.{fee_at}
use evm_dex_pool.Lb.Swap.Fill.{gross_cost}
use evm_dex_pool.Lb.Swap.Bounds.{side, side_at, from_here}

pub fee_at-le : (p : LbPool) (refs : ℕ × ℕ) (id : ℕ) → fee_at p refs id ≤ max_fee
unfolding fee_at
fee_at-le p (vol_ref, id_ref) id =
    get_total_fee-le p.base_factor p.bin_step _ p.variable_fee_control

-- What the swap can reach: the reserves from the active bin on, in its direction.
abbrev pub reachable : LbPool → Bool → ℕ
reachable p y = from_here (side_at y) y p.active_id p.bins

-- What the bins from the active one on cost together, each at its price and with its fee.
abbrev pub bin_cost : LbPool → Bool → ℕ × ℕ → ℕ → Bin → ℕ
bin_cost p y refs id b =
    gross_cost y (get_price_from_id id p.bin_step) (fee_at p refs id) (side y b)

abbrev pub cost_from : LbPool → Bool → ℕ × ℕ → ℕ → ℕ
cost_from p y refs id = from_here (bin_cost p y refs) y id p.bins

abbrev pub capacity : LbPool → Bool → ℕ → ℕ
capacity p y timestamp = cost_from p y (update_references p timestamp) p.active_id
