-- ===== src/V3/Pool/Ticks.antt =====
-- The ticks of the pool of src/v3/pool.rs under mints and burns.
use evm_dex_pool.Base.{
  ℕ, ◌-◌, ◌≤◌, ◌<◌, leb, ◌==◌, if◌then◌else◌, length, ◌≡◌, refl, Option, none, some, Error, arith,
  Bool-cases, inl, inr,
}
use evm_dex_pool.Base.Int
use evm_dex_pool.Base.Int.{ℤ, signed}
use evm_dex_pool.BTreeMap
use evm_dex_pool.BTreeMap.{BTreeMap, Every, IsSorted}
use evm_dex_pool.BTreeMap.Order.{
  insert-Every, remove-Every, remove-insert-Every, get-Every, insert-IsSorted, remove-IsSorted,
}
use evm_dex_pool.Uint
use evm_dex_pool.Uint.{Fits}
use evm_dex_pool.V3.Pool.{
  Tick, UniswapV3Pool, update_tick, mint_at, in_range, apply_mint_event, burn_at, and_then,
  has_tick, apply_burn_event,
}

abbrev pub IsStored : ℕ → Tick → Type 0
IsStored k tick = (tick.index ≡ k) × (0 < tick.liquidity_gross) × Fits 128 tick.liquidity_gross

-- Every stored tick stands at its index and has liquidity, the current liquidity is a `u128`, and
-- the window of swaps is not longer than its length.
pub record IsConsistent (p : UniswapV3Pool) : Type 0 where
  pub sorted : IsSorted p.ticks
  pub ticks_are : Every IsStored p.ticks
  pub liquidity_fits : Fits 128 p.liquidity
  pub window : length p.swap_fee_misses ≤ 10

with_tick-IsConsistent :
    (p : UniswapV3Pool) (k : ℕ) (tick : Tick)
    → IsStored k tick
    → IsConsistent p
    → IsConsistent (record p { ticks = BTreeMap.insert k tick p.ticks })
with_tick-IsConsistent p k tick t h = record {
  sorted = insert-IsSorted k tick p.ticks h.sorted;
  ticks_are = insert-Every IsStored k tick p.ticks t h.ticks_are;
  liquidity_fits = h.liquidity_fits;
  window = h.window;
}

with_liquidity-IsConsistent :
    (p : UniswapV3Pool) (liquidity : ℕ)
    → Fits 128 liquidity
    → IsConsistent p
    → IsConsistent (record p { liquidity = liquidity })
with_liquidity-IsConsistent p liquidity f h = record {
  sorted = h.sorted;
  ticks_are = h.ticks_are;
  liquidity_fits = f;
  window = h.window;
}

without_tick-IsConsistent :
    (p : UniswapV3Pool) (k : ℕ)
    → IsConsistent p
    → IsConsistent (record p { ticks = BTreeMap.remove k p.ticks })
without_tick-IsConsistent p k h = record {
  sorted = remove-IsSorted k p.ticks h.sorted;
  ticks_are = remove-Every IsStored k p.ticks h.ticks_are;
  liquidity_fits = h.liquidity_fits;
  window = h.window;
}

update_tick-IsConsistent :
    (p : UniswapV3Pool) (k : ℕ) (net : ℤ) (gross : ℕ)
    → Fits 128 gross
    → IsConsistent p
    → IsConsistent (update_tick p k net gross)
unfolding update_tick
update_tick-IsConsistent p k net gross f h = elim (Bool-cases (gross == 0)) [
  | inl z ↦ rw (z, update_tick) (without_tick-IsConsistent p k h)
  | inr some_left ↦
      rw (some_left, update_tick) (with_tick-IsConsistent p k _ (refl, ground arith, f) h)
]

mint_at-IsConsistent :
    (p : UniswapV3Pool) (k : ℕ) (net_of : ℤ → ℤ) (fresh : ℤ) (amount : ℕ) (o : Option Tick)
    → BTreeMap.get k p.ticks ≡ o
    → Fits 128 amount
    → IsConsistent p
    → IsConsistent (mint_at p k net_of fresh amount o)
unfolding mint_at Uint.saturating_add
mint_at-IsConsistent p k net_of fresh amount none e f h =
    update_tick-IsConsistent p k fresh amount f h
mint_at-IsConsistent p k net_of fresh amount (some tick) e f h =
    let (at, positive, fits) = get-Every IsStored k tick p.ticks h.ticks_are e in
    with_tick-IsConsistent p k _ (at, omega arith, omega arith) h

pub apply_mint-IsConsistent :
    (p : UniswapV3Pool) (tick_lower tick_upper amount : ℕ)
    → Fits 128 amount
    → IsConsistent p
    → IsConsistent (apply_mint_event p tick_lower tick_upper amount).0
unfolding apply_mint_event Uint.saturating_add
apply_mint-IsConsistent p l u amount f h = elim (Bool-cases (leb u l)) [
  | inl wrong ↦ rw (wrong, apply_mint_event) h
  | inr fine ↦
      let delta = signed 128 amount in
      let lower =
        mint_at p l (λ net. Int.saturating_add 128 net delta) delta amount
          (BTreeMap.get l p.ticks) in
      let upper =
        mint_at lower u (λ net. Int.saturating_sub 128 net delta) (Int.wrapping_neg 128 delta)
          amount (BTreeMap.get u lower.ticks) in
      let at_lower : IsConsistent lower = mint_at-IsConsistent p l _ delta amount _ refl f h in
      let at_upper : IsConsistent upper =
        mint_at-IsConsistent lower u _ _ amount _ refl f at_lower in
      elim (Bool-cases (in_range upper l u)) [
        | inl inside ↦
            simp (fine, inside) (with_liquidity-IsConsistent upper _ (omega arith) at_upper)
        | inr outside ↦ simp (fine, outside) at_upper
      ]
]

burn_at-IsConsistent :
    (p : UniswapV3Pool) (k : ℕ) (net_of : ℤ → ℤ) (amount : ℕ) (o : Option Tick)
    → BTreeMap.get k p.ticks ≡ o
    → IsConsistent p
    → IsConsistent (burn_at p k net_of amount o).0
unfolding burn_at update_tick
burn_at-IsConsistent p k net_of amount none e h = h
burn_at-IsConsistent p k net_of amount (some tick) e h =
    let (at, positive, fits) = get-Every IsStored k tick p.ticks h.ticks_are e in
    elim (Bool-cases (tick.liquidity_gross - amount == 0)) [
      | inl z ↦ simp z (record {
        sorted =
            remove-IsSorted k (BTreeMap.insert k _ p.ticks) (insert-IsSorted k _ p.ticks h.sorted);
        ticks_are = remove-insert-Every IsStored k _ p.ticks h.ticks_are;
        liquidity_fits = h.liquidity_fits;
        window = h.window;
      })
      | inr some_left ↦
          simp some_left (with_tick-IsConsistent p k _ (at, ground arith, omega arith) h)
    ]

and_then-IsConsistent :
    (r : UniswapV3Pool × Option Error) (rest : UniswapV3Pool → UniswapV3Pool × Option Error)
    → IsConsistent r.0
    → (IsConsistent r.0 → IsConsistent (rest r.0).0)
    → IsConsistent (and_then r rest).0
and_then-IsConsistent (p, some e) rest h f = h
and_then-IsConsistent (p, none) rest h f = f h

leave-IsConsistent :
    (p : UniswapV3Pool) (l u amount : ℕ)
    → IsConsistent p
    → IsConsistent (if in_range p l u then record p { liquidity = p.liquidity - amount } else p)
leave-IsConsistent p l u amount h =
    let fits = h.liquidity_fits in
    elim (Bool-cases (in_range p l u)) [
      | inl inside ↦ simp inside (with_liquidity-IsConsistent p _ (omega arith) h)
      | inr outside ↦ simp outside h
    ]

pub apply_burn-IsConsistent :
    (p : UniswapV3Pool) (tick_lower tick_upper amount : ℕ)
    → IsConsistent p
    → IsConsistent (apply_burn_event p tick_lower tick_upper amount).0
unfolding apply_burn_event
apply_burn-IsConsistent p l u amount h =
    let delta = signed 128 amount in
    elim (Bool-cases (leb u l)) [
      | inl wrong ↦ simp wrong h
      | inr fine ↦ elim (Bool-cases (has_tick (BTreeMap.get l p.ticks))) [
        | inr no_lower ↦ simp (fine, no_lower) h
        | inl has_lower ↦ elim (Bool-cases (has_tick (BTreeMap.get u p.ticks))) [
          | inr no_upper ↦ simp (fine, has_lower, no_upper) h
          | inl has_upper ↦
              simp (fine, has_lower, has_upper)
                (and_then-IsConsistent
                  (burn_at p l (λ net. Int.saturating_sub 128 net delta) amount
                    (BTreeMap.get l p.ticks))
                  _ (burn_at-IsConsistent p l _ amount _ refl h)
                  (λ hl.
                    let lower =
                      (burn_at p l (λ net. Int.saturating_sub 128 net delta) amount
                        (BTreeMap.get l p.ticks)).0 in
                    and_then-IsConsistent
                      (burn_at lower u (λ net. Int.saturating_add 128 net delta) amount
                        (BTreeMap.get u lower.ticks))
                      _ (burn_at-IsConsistent lower u _ amount _ refl hl)
                      (λ hu. leave-IsConsistent _ l u amount hu)))
        ]
      ]
    ]
