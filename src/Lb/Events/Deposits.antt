-- ===== src/Lb/Events/Deposits.antt =====
-- What the deposit and withdrawal logs do to the reserves, bin by bin.
use evm_dex_pool.Base.{ℕ, ◌+◌, ◌-◌, ◌^◌, min, ◌≡◌, ◌∙◌, ◌==◌, if◌then◌else◌, List, [], ◌∷◌, arith}
use evm_dex_pool.Uint
use evm_dex_pool.Uint.{Fits}
use evm_dex_pool.BTreeMap.{BTreeMap, IsSorted}
use evm_dex_pool.Lb.Math.{decode_amounts}
use evm_dex_pool.Lb.Pool.{LbPool, Bin, bin_at}
use evm_dex_pool.Lb.Pool.Bins.{AreBins, bin_at-set_bin, bin_at-Fits}
use evm_dex_pool.Lb.Events.Arms.{
  BinsData, change_bin, change_bins, clamp_id, add_to, take_off, deposited_to_bins,
  withdrawn_from_bins,
}
use evm_dex_pool.Lb.Events.Invariant.{
  change_bin-AreBins, change_bins-AreBins, add_to-Fits, take_off-Fits, clamp_id-Fits,
}

-- The sum of what a log's amounts name for the bin `j`, X and Y.
abbrev named : List ℕ → List (List ℕ) → ℕ → ℕ × ℕ
named [] amounts j = (0, 0)
named (id ∷ ids) [] j = (0, 0)
named (id ∷ ids) (a ∷ amounts) j =
    let (x, y) = decode_amounts a in
    let rest = named ids amounts j in if j == clamp_id id then (x + rest.0, y + rest.1) else rest

bin_at-change_bin :
    (bins : BTreeMap Bin) (id j : ℕ) (f g : ℕ → ℕ)
    → IsSorted bins
    → bin_at (change_bin bins id f g) j
      ≡ (if j == id then (f (bin_at bins id).0, g (bin_at bins id).1) else bin_at bins j)
unfolding change_bin
bin_at-change_bin bins id j f g s = bin_at-set_bin bins id _ _ j s

-- A withdrawal takes the sum named for each bin off its reserves, and stops at zero.
withdrawn_at :
    (ids : List ℕ) (amounts : List (List ℕ)) (bins : BTreeMap Bin) (j : ℕ)
    → AreBins bins
    → bin_at (change_bins take_off ids amounts bins) j
      ≡ ((bin_at bins j).0 - (named ids amounts j).0, (bin_at bins j).1 - (named ids amounts j).1)
unfolding change_bins take_off
withdrawn_at [] amounts bins j b = ground arith
withdrawn_at (id ∷ ids) [] bins j b = ground arith
withdrawn_at (id ∷ ids) (a ∷ amounts) bins j b =
    withdrawn_at ids amounts (change_bin bins (clamp_id id) (take_off x) (take_off y)) j (
      change_bin-AreBins bins b (clamp_id id) (take_off x) (take_off y) (clamp_id-Fits id)
        (take_off-Fits x) (take_off-Fits y))
    ∙ ground (arith, bin_at-change_bin bins (clamp_id id) j (take_off x) (take_off y) b.sorted)
  where
    x : ℕ
    x = (decode_amounts a).0

    y : ℕ
    y = (decode_amounts a).1

-- A deposit adds the sum named for each bin to its reserves, and saturates at `u128::MAX`.
deposited_at :
    (ids : List ℕ) (amounts : List (List ℕ)) (bins : BTreeMap Bin) (j : ℕ)
    → AreBins bins
    → bin_at (change_bins add_to ids amounts bins) j ≡ (
      min ((bin_at bins j).0 + (named ids amounts j).0) (2 ^ 128 - 1),
      min ((bin_at bins j).1 + (named ids amounts j).1) (2 ^ 128 - 1),
    )
unfolding change_bins add_to Uint.saturating_add
deposited_at [] amounts bins j b = ground (arith, bin_at-Fits bins j b)
deposited_at (id ∷ ids) [] bins j b = ground (arith, bin_at-Fits bins j b)
deposited_at (id ∷ ids) (a ∷ amounts) bins j b =
    deposited_at ids amounts (change_bin bins (clamp_id id) (add_to x) (add_to y)) j (
      change_bin-AreBins bins b (clamp_id id) (add_to x) (add_to y) (clamp_id-Fits id)
        (add_to-Fits x) (add_to-Fits y))
    ∙ ground (arith, bin_at-change_bin bins (clamp_id id) j (add_to x) (add_to y) b.sorted)
  where
    x : ℕ
    x = (decode_amounts a).0

    y : ℕ
    y = (decode_amounts a).1

-- On well-formed bins, withdrawing what was just deposited gives back the reserves of every bin in
-- which the deposit saturates neither reserve.
pub withdraw-deposit :
    (p : LbPool) (d : BinsData) (t u j : ℕ)
    → AreBins p.bins
    → Fits 128 ((bin_at p.bins j).0 + (named d.ids d.amounts j).0)
    → Fits 128 ((bin_at p.bins j).1 + (named d.ids d.amounts j).1)
    → bin_at (withdrawn_from_bins (deposited_to_bins p d t).0 d u).0.bins j ≡ bin_at p.bins j
unfolding withdrawn_from_bins deposited_to_bins
withdraw-deposit p d t u j b hx hy =
    withdrawn_at d.ids d.amounts _ j
      (change_bins-AreBins add_to add_to-Fits d.ids d.amounts p.bins b)
    ∙ ground (arith, deposited_at d.ids d.amounts p.bins j b)
