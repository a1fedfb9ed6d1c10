-- ===== src/V3/Pool/Burns.antt =====
-- The burns of the pool of src/v3/pool.rs that are refused.
use evm_dex_pool.Base.{
  ℕ, ◌-◌, true, false, leb, ◌==◌, ◌≡◌, refl, ap, sym, ◌∙◌, Option, none, some, Error, arith,
  Bool-cases, inl, inr,
}
use evm_dex_pool.Base.Int
use evm_dex_pool.Base.Int.{ℤ, signed}
use evm_dex_pool.BTreeMap
use evm_dex_pool.BTreeMap.{IsSorted}
use evm_dex_pool.BTreeMap.Lookup.{get-insert, get-remove}
use evm_dex_pool.BTreeMap.Order.{insert-IsSorted}
use evm_dex_pool.V3.Pool.{
  Tick, UniswapV3Pool, update_tick, burn_at, and_then, has_tick, apply_burn_event,
}

-- A burn at one tick leaves every other tick as it is.
burn_at-frame :
    (p : UniswapV3Pool) (k j : ℕ) (net_of : ℤ → ℤ) (amount : ℕ) (o : Option Tick)
    → IsSorted p.ticks
    → (j == k) ≡ false
    → BTreeMap.get j (burn_at p k net_of amount o).0.ticks ≡ BTreeMap.get j p.ticks
unfolding burn_at update_tick
burn_at-frame p k j net_of amount none s other = refl
burn_at-frame p k j net_of amount (some tick) s other =
    let debited : Tick = record tick {
      liquidity_net = net_of tick.liquidity_net;
      liquidity_gross = tick.liquidity_gross - amount;
    } in
    let inserted = get-insert j k debited p.ticks in
    let removed =
      get-remove j k (BTreeMap.insert k debited p.ticks) (insert-IsSorted k debited p.ticks s) in
    elim (Bool-cases (tick.liquidity_gross - amount == 0)) [
      | inl z ↦ simp z (simp other at removed ∙ (simp other at inserted))
      | inr some_left ↦ simp some_left (simp other at inserted)
    ]

burn_at-accepts :
    (p : UniswapV3Pool) (k : ℕ) (net_of : ℤ → ℤ) (amount : ℕ) (o : Option Tick)
    → has_tick o ≡ true
    → (burn_at p k net_of amount o).1 ≡ none
unfolding burn_at
burn_at-accepts p k net_of amount none h = absurd (ground arith)
burn_at-accepts p k net_of amount (some tick) h = refl

and_then-accepts :
    (r : UniswapV3Pool × Option Error) (rest : UniswapV3Pool → UniswapV3Pool × Option Error)
    → r.1 ≡ none
    → (rest r.0).1 ≡ none
    → (and_then r rest).1 ≡ none
and_then-accepts (p, none) rest e h = h
and_then-accepts (p, some why) rest e h = absurd (ground arith)

none-some : {why : Error} → none ≡ some why → ⊥
none-some e = ground arith

burn-accepts :
    (p : UniswapV3Pool) (tick_lower tick_upper amount : ℕ)
    → IsSorted p.ticks
    → leb tick_upper tick_lower ≡ false
    → has_tick (BTreeMap.get tick_lower p.ticks) ≡ true
    → has_tick (BTreeMap.get tick_upper p.ticks) ≡ true
    → (apply_burn_event p tick_lower tick_upper amount).1 ≡ none
unfolding apply_burn_event
burn-accepts p l u amount s fine has_lower has_upper =
    let delta = signed 128 amount in
    let net_lower : ℤ → ℤ = λ net. Int.saturating_sub 128 net delta in
    let net_upper : ℤ → ℤ = λ net. Int.saturating_add 128 net delta in
    let o = BTreeMap.get l p.ticks in
    let lower = (burn_at p l net_lower amount o).0 in
    let there : has_tick (BTreeMap.get u lower.ticks) ≡ true =
      ap has_tick (burn_at-frame p l u net_lower amount o s (ground (arith, fine))) ∙ has_upper in
    simp (fine, has_lower, has_upper)
      (and_then-accepts (burn_at p l net_lower amount o) _
        (burn_at-accepts p l net_lower amount o has_lower)
        (and_then-accepts (burn_at lower u net_upper amount (BTreeMap.get u lower.ticks)) _
          (burn_at-accepts lower u net_upper amount (BTreeMap.get u lower.ticks) there) refl))

-- On ordered ticks, a burn that is refused leaves the V3 pool as it was.
pub burn-atomic :
    (p : UniswapV3Pool) (tick_lower tick_upper amount : ℕ) (why : Error)
    → IsSorted p.ticks
    → (apply_burn_event p tick_lower tick_upper amount).1 ≡ some why
    → (apply_burn_event p tick_lower tick_upper amount).0 ≡ p
unfolding apply_burn_event
burn-atomic p l u amount why s e = elim (Bool-cases (leb u l)) [
  | inl wrong ↦ simp wrong refl
  | inr fine ↦ elim (Bool-cases (has_tick (BTreeMap.get l p.ticks))) [
    | inr no_lower ↦ simp (fine, no_lower) refl
    | inl has_lower ↦ elim (Bool-cases (has_tick (BTreeMap.get u p.ticks))) [
      | inr no_upper ↦ simp (fine, has_lower, no_upper) refl
      | inl has_upper ↦
          let accepted = burn-accepts p l u amount s fine has_lower has_upper in
          absurd (none-some (sym accepted ∙ e))
    ]
  ]
]
