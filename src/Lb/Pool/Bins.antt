-- ===== src/Lb/Pool/Bins.antt =====
-- The bin map of a pool under `update_bin` of src/lb/pool.rs.
use evm_dex_pool.Base.{
  ℕ, ◌+◌, ◌<◌, ◌≡◌, ◌==◌, ◌&&◌, if◌then◌else◌, arith, Bool-cases, Option-cases, inl, inr,
}
use evm_dex_pool.Uint.{Fits}
use evm_dex_pool.BTreeMap
use evm_dex_pool.BTreeMap.{BTreeMap, Every, IsSorted}
use evm_dex_pool.BTreeMap.Lookup.{get-insert, get-remove}
use evm_dex_pool.BTreeMap.Order.{
  insert-Every, remove-Every, insert-IsSorted, remove-IsSorted, get-Every,
}
use evm_dex_pool.Lb.Pool.{Bin, set_bin, bin_at}

-- An entry of the map: a non-empty bin with `u128` reserves under a `u32` id.
abbrev pub Stored : ℕ → Bin → Type 0
Stored id b = Fits 32 id × (0 < b.0 + b.1) × Fits 128 b.0 × Fits 128 b.1

pub record AreBins (bins : BTreeMap Bin) : Type 0 where
  pub sorted : IsSorted bins
  pub stored : Every Stored bins

-- Writing a bin of sorted bins changes how that bin reads and no other, also where the written
-- reserves are zero and the bin is removed.
pub bin_at-set_bin :
    (bins : BTreeMap Bin) (id x y j : ℕ)
    → IsSorted bins
    → bin_at (set_bin bins id x y) j ≡ (if j == id then (x, y) else bin_at bins j)
unfolding set_bin bin_at
bin_at-set_bin bins id x y j s = ground (arith, get-insert j id (x, y) bins, get-remove j id bins s)

-- The map stays sorted and holds no empty bin.
pub set_bin-AreBins :
    (bins : BTreeMap Bin) (id x y : ℕ)
    → AreBins bins
    → Fits 32 id
    → Fits 128 x
    → Fits 128 y
    → AreBins (set_bin bins id x y)
unfolding set_bin
set_bin-AreBins bins id x y b hid hx hy = elim (Bool-cases (x == 0 && y == 0)) [
  | inl empty ↦ rw empty (record {
    sorted = remove-IsSorted id bins b.sorted;
    stored = remove-Every Stored id bins b.stored;
  })
  | inr full ↦ rw full (record {
    sorted = insert-IsSorted id (x, y) bins b.sorted;
    stored = insert-Every Stored id (x, y) bins (hid, ground arith, hx, hy) b.stored;
  })
]

-- Every bin reads as two `u128` reserves.
pub bin_at-Fits :
    (bins : BTreeMap Bin) (id : ℕ)
    → AreBins bins
    → Fits 128 (bin_at bins id).0 × Fits 128 (bin_at bins id).1
unfolding bin_at
bin_at-Fits bins id b = elim (Option-cases (BTreeMap.get id bins)) [
  | inl e ↦ rw e (omega arith)
  | inr (v, e) ↦ let (i, n, x, y) = get-Every Stored id v bins b.stored e in rw e (x, y)
]
