-- ===== src/Lb/Swap/Bounds.antt =====
-- The bins that lie ahead of a swap: what they hold and how many they are.
use evm_dex_pool.Base.{
  ℕ, suc, ◌+◌, ◌≤◌, ◌<◌, ◌^◌, ◌≡◌, refl, Bool, true, false, Option, none, some, arith, sym, ◌∙◌,
  length,
}
use evm_dex_pool.Uint
use evm_dex_pool.BTreeMap
use evm_dex_pool.BTreeMap.{BTreeMap, Every, IsSorted}
use evm_dex_pool.BTreeMap.Order.{get-Every}
use evm_dex_pool.BTreeMap.Range.{
  total, sum_below, sum_from, sum_below-le, sum_from-le, sum_below-get, sum_from-get,
  sum_below-absent, sum_from-absent, sum_below-last, sum_from-first, total-count, first_from-some,
  last_below-some, sum_below-none, sum_from-none,
}
use evm_dex_pool.Lb.Math.{get_price_from_id}
use evm_dex_pool.Lb.Pool.{LbPool, Bin, next_non_empty_bin, key_of}
use evm_dex_pool.Lb.Pool.Bins.{AreBins}
use evm_dex_pool.Lb.Swap.{reserve_out}
use evm_dex_pool.Lb.Swap.Fill.{Affordable}

-- The reserve of a bin that the swap takes from.
abbrev pub side : Bool → Bin → ℕ
side y b = reserve_out y (some b)

abbrev pub side_at : Bool → ℕ → Bin → ℕ
side_at y id b = side y b

-- Sums over the bins from `id` on, and over those behind it, in the direction of the swap.
abbrev pub from_here : (ℕ → Bin → ℕ) → Bool → ℕ → BTreeMap Bin → ℕ
from_here f true id m = sum_below f (suc id) m
from_here f false id m = sum_from f id m

abbrev pub beyond : (ℕ → Bin → ℕ) → Bool → ℕ → BTreeMap Bin → ℕ
beyond f true id m = sum_below f id m
beyond f false id m = sum_from f (suc id) m

beyond-le : (f : ℕ → Bin → ℕ) (y : Bool) (id : ℕ) (m : BTreeMap Bin) → beyond f y id m ≤ total f m
beyond-le f true id m = sum_below-le f id m
beyond-le f false id m = sum_from-le f (suc id) m

pub from_here-le :
    (f : ℕ → Bin → ℕ) (y : Bool) (id : ℕ) (m : BTreeMap Bin) → from_here f y id m ≤ total f m
from_here-le f true id m = sum_below-le f (suc id) m
from_here-le f false id m = sum_from-le f id m

-- A visited bin moves out of the sum.
pub from_here-get :
    (f : ℕ → Bin → ℕ) (y : Bool) (id : ℕ) (b : Bin) (m : BTreeMap Bin)
    → IsSorted m
    → BTreeMap.get id m ≡ some b
    → from_here f y id m ≡ f id b + beyond f y id m
from_here-get f true id b m s h = sum_below-get f id b m s h
from_here-get f false id b m s h = sum_from-get f id b m s h

pub from_here-absent :
    (f : ℕ → Bin → ℕ) (y : Bool) (id : ℕ) (m : BTreeMap Bin)
    → BTreeMap.get id m ≡ none
    → from_here f y id m ≡ beyond f y id m
from_here-absent f true id m h = sum_below-absent f id m h
from_here-absent f false id m h = sum_from-absent f id m h

-- What a quote needs of a pool: well-formed bins whose ids leave room for the next one, a bin
-- step, reserves that add up within `u128`, and bins that can be bought whole.
pub record Quotable (p : LbPool) (y : Bool) : Type 0 where
  pub bins : AreBins p.bins
  pub ids : Every (λ id _. suc id < 2 ^ 32) p.bins
  pub active : suc p.active_id < 2 ^ 32
  pub step : 0 < p.bin_step
  pub step_fits : p.bin_step < 2 ^ 16
  pub solvent : total (side_at y) p.bins < 2 ^ 128
  pub priced :
      Every
        (λ id b.
          (0 < get_price_from_id id p.bin_step)
          × Affordable y (get_price_from_id id p.bin_step) (side y b))
        p.bins

key_of-some : (o : Option (ℕ × Bin)) (id : ℕ) → key_of o ≡ some id → (b : Bin) × (o ≡ some (id, b))
key_of-some none id h = absurd (ground arith)
key_of-some (some (k, b)) id h = (b, ground arith)

-- What the next bin is: an entry of the map, with nothing between it and the visited one.
abbrev IsNext : (ℕ → Bin → ℕ) → LbPool → Bool → ℕ → ℕ → Type 0
IsNext f p y id id' =
    (b : Bin) × (BTreeMap.get id' p.bins ≡ some b)
    × (beyond f y id p.bins ≡ from_here f y id' p.bins)

next_id : (id : ℕ) → suc id < 2 ^ 32 → Uint.add 32 id 1 ≡ suc id
next_id id room = Uint.add-eq 32 id 1 (omega arith) ∙ omega arith

pub next_non_empty_bin-IsNext :
    (f : ℕ → Bin → ℕ) (p : LbPool) (y : Bool) (id id' : ℕ)
    → IsSorted p.bins
    → suc id < 2 ^ 32
    → next_non_empty_bin p y id ≡ some id'
    → IsNext f p y id id'
unfolding next_non_empty_bin
next_non_empty_bin-IsNext f p true id id' sorted room h =
    let (b, e) = key_of-some (BTreeMap.last_below id p.bins) id' h in
    let (_, found, _) = last_below-some id id' b p.bins sorted e in
    (
      b,
      found,
      sum_below-last f id id' b p.bins sorted e ∙ sym (sum_below-get f id' b p.bins sorted found),
    )
next_non_empty_bin-IsNext f p false id id' sorted room h =
    let (b, e) =
      key_of-some (BTreeMap.first_from (suc id) p.bins) id' (rw (next_id id room) at h) in
    let (_, found, _) = first_from-some (suc id) id' b p.bins sorted e in
    (
      b,
      found,
      sum_from-first f (suc id) id' b p.bins sorted e
          ∙ sym (sum_from-get f id' b p.bins sorted found),
    )

key_of-none : (o : Option (ℕ × Bin)) → key_of o ≡ none → o ≡ none
key_of-none none h = refl
key_of-none (some (k, b)) h = absurd (ground arith)

-- Where the walk finds no next bin nothing lies beyond.
pub next-none :
    (f : ℕ → Bin → ℕ) (p : LbPool) (y : Bool) (id : ℕ)
    → IsSorted p.bins
    → suc id < 2 ^ 32
    → next_non_empty_bin p y id ≡ none
    → beyond f y id p.bins ≡ 0
unfolding next_non_empty_bin
next-none f p true id sorted room h = sum_below-none f id p.bins sorted (key_of-none _ h)
next-none f p false id sorted room h =
    sum_from-none f (suc id) p.bins (key_of-none _ (rw (next_id id room) at h))

module _ (p : LbPool) (y : Bool) (q : Quotable p y) where
  -- The number of bins that lie beyond one falls at each step of the walk.
  pub bins_beyond : ℕ → ℕ
  bins_beyond id = beyond (λ _ _. 1) y id p.bins

  pub bins_beyond-lt-fuel : (id : ℕ) → bins_beyond id < length p.bins + 1
  unfolding bins_beyond
  bins_beyond-lt-fuel id = omega (arith, beyond-le (λ _ _. 1) y id p.bins, total-count p.bins)

  pub next_in_range :
      (id id' : ℕ) → suc id < 2 ^ 32 → next_non_empty_bin p y id ≡ some id' → suc id' < 2 ^ 32
  next_in_range id id' room h =
      let (b, found, _) = next_non_empty_bin-IsNext (λ _ _. 1) p y id id' q.bins.sorted room h in
      get-Every (λ k _. suc k < 2 ^ 32) id' b p.bins q.ids found

  pub bins_beyond_falls :
      (id id' : ℕ)
      → suc id < 2 ^ 32
      → next_non_empty_bin p y id ≡ some id'
      → bins_beyond id' < bins_beyond id
  unfolding bins_beyond
  bins_beyond_falls id id' room h =
      let (b, found, same) = next_non_empty_bin-IsNext (λ _ _. 1) p y id id' q.bins.sorted room h in
      omega (arith, same, from_here-get (λ _ _. 1) y id' b p.bins q.bins.sorted found)
