-- ===== src/Lb/Swap/In.antt =====
-- `simulate_swap_in_at` of src/lb/pool.rs: what its walk over the bins keeps.
use evm_dex_pool.Base.{
  ℕ, suc, ◌+◌, ◌-◌, ◌*◌, ◌≤◌, ◌<◌, ◌^◌, min, ◌≡◌, refl, ◌⊎◌, inl, inr, Bool, true, false, none,
  some, ltb, ◌==◌, Returns, arith, Option-cases, Bool-cases, ltb→lt, ltb-false→le, ap, ◌∙◌, lt→ltb,
  not_zero→pos, zero_test→eq,
}
use evm_dex_pool.Base.Division.{ceil_div}
use evm_dex_pool.Uint
use evm_dex_pool.Uint.{Fits}
use evm_dex_pool.BTreeMap
use evm_dex_pool.BTreeMap.Order.{get-Every}
use evm_dex_pool.Lb.Math.{get_price_from_id, precision}
use evm_dex_pool.Lb.Math.Fees.{get_fee_amount-eq}
use evm_dex_pool.Lb.Math.Price.{price-Fits}
use evm_dex_pool.Lb.Pool.{LbPool, Bin, next_non_empty_bin, update_references}
use evm_dex_pool.Lb.Pool.Bins.{Stored}
use evm_dex_pool.Lb.Swap.{
  SwapIn, deliver, reserve_out, fee_at, visit_in, walk_fuel, simulate_swap_in_at,
}
use evm_dex_pool.Lb.Swap.Walk.{walk_bins_rule}
use evm_dex_pool.Lb.Swap.Rates.{cost, cost_mono, amount_to_pay-eq}
use evm_dex_pool.Lb.Swap.Fill.{Affordable}
use evm_dex_pool.Lb.Swap.Bounds.{
  side, side_at, from_here, beyond, from_here-get, from_here-absent, Quotable,
  next_non_empty_bin-IsNext, next-none, bins_beyond, bins_beyond-lt-fuel, bins_beyond_falls,
  next_in_range,
}
use evm_dex_pool.Lb.Swap.Ahead.{reachable, fee_at-le}

module _ (p : LbPool) (y : Bool) (amount_out : ℕ) (refs : ℕ × ℕ) (q : Quotable p y)
    (wanted : Fits 128 amount_out) where
  record Before (id : ℕ) (s : SwapIn) : Type 0 where
    room : suc id < 2 ^ 32
    part : s.amount_out_left ≤ amount_out
    ahead : amount_out - s.amount_out_left + from_here (side_at y) y id p.bins ≡ reachable p y

  record After (id : ℕ) (s : SwapIn) : Type 0 where
    room : suc id < 2 ^ 32
    part : s.amount_out_left ≤ amount_out
    within : amount_out - s.amount_out_left + beyond (side_at y) y id p.bins ≤ reachable p y
    emptied :
        (s.amount_out_left ≡ 0)
        ⊎ (amount_out - s.amount_out_left + beyond (side_at y) y id p.bins ≡ reachable p y)

  side-Fits : (id : ℕ) (b : Bin) → BTreeMap.get id p.bins ≡ some b → Fits 128 (side y b)
  unfolding reserve_out
  side-Fits id b e =
      let (small, stored, x, z) = get-Every Stored id b p.bins q.bins.stored e in ground arith

  nothing : (b : Bin) → ltb 0 (side y b) ≡ false → side y b ≡ 0
  nothing b h = omega (arith, ltb-false→le 0 (side y b) h)

  pass_over :
      (id : ℕ) (s : SwapIn)
      → reserve_out y (BTreeMap.get id p.bins) ≡ 0
      → from_here (side_at y) y id p.bins ≡ beyond (side_at y) y id p.bins
      → Before id s
      → Returns (visit_in p y refs id s) (After id)
  unfolding visit_in
  pass_over id s e same b = (
    s,
    rw e,
    record { room = b.room; part = b.part; within = omega arith; emptied = inr (omega arith) },
  )

  -- A part of a bin costs no more than the bin, so paying for it and its fee cannot panic.
  bin_cost :
      (id n : ℕ) (b : Bin)
      → BTreeMap.get id p.bins ≡ some b
      → n ≤ side y b
      → (0 < get_price_from_id id p.bin_step)
        × (10 * cost y (get_price_from_id id p.bin_step) n + 8 < 9 * 2 ^ 128)
  bin_cost id n b e h =
      let (price_pos, affordable) =
        get-Every
          (λ k c.
            (0 < get_price_from_id k p.bin_step)
            × Affordable y (get_price_from_id k p.bin_step) (side y c))
          id b p.bins q.priced e in
      (
        price_pos,
        omega (arith, cost_mono y (get_price_from_id id p.bin_step) price_pos n (side y b) h),
      )

  delivered :
      (id : ℕ) (s : SwapIn) (b : Bin) (paid fee : ℕ)
      → Before id s
      → from_here (side_at y) y id p.bins ≡ side y b + beyond (side_at y) y id p.bins
      → After id (deliver s paid fee (min (side y b) s.amount_out_left))
  unfolding deliver Uint.sub
  delivered id s b paid fee before moved = record {
    room = before.room;
    part = omega (arith, before.part);
    within = omega arith;
    emptied = ground arith;
  }

  take_from :
      (id : ℕ) (s : SwapIn) (b : Bin)
      → BTreeMap.get id p.bins ≡ some b
      → 0 < side y b
      → Before id s
      → Returns (visit_in p y refs id s) (After id)
  unfolding visit_in
  take_from id s b e stored before =
      let n = min (side y b) s.amount_out_left in
      let price = get_price_from_id id p.bin_step in
      let (price_pos, cheap) = bin_cost id n b e (omega arith) in
      let fits : Fits 128 n = omega (arith, side-Fits id b e) in
      let moved = from_here-get (side_at y) y id b p.bins q.bins.sorted e in
      (
        deliver s (cost y price n)
            (ceil_div (cost y price n * fee_at p refs id) (precision - fee_at p refs id)) n,
        rw (
          e,
          lt→ltb 0 (side y b) stored,
          amount_to_pay-eq price price_pos (price-Fits id p.bin_step q.step q.step_fits) y n fits,
          Uint.to-eq 128 (cost y price n) (omega arith),
          get_fee_amount-eq (cost y price n) (fee_at p refs id) (omega arith) (fee_at-le p refs id),
        ),
        delivered id s b _ _ before moved,
      )

  visit-After : (id : ℕ) (s : SwapIn) → Before id s → Returns (visit_in p y refs id s) (After id)
  unfolding reserve_out
  visit-After id s b = elim (Option-cases (BTreeMap.get id p.bins)) [
    | inl e ↦
        pass_over id s (ap (reserve_out y) e ∙ refl) (from_here-absent (side_at y) y id p.bins e) b
    | inr (v, e) ↦ elim (Bool-cases (ltb 0 (side y v))) [
      | inl full ↦ take_from id s v e (ltb→lt _ _ full) b
      | inr empty ↦
          pass_over id s (ap (reserve_out y) e ∙ nothing v empty)
            (omega
              (arith, from_here-get (side_at y) y id v p.bins q.bins.sorted e, nothing v empty))
            b
    ]
  ]

  step-Before :
      (id id' : ℕ) (s : SwapIn)
      → After id s
      → (s.amount_out_left == 0) ≡ false
      → next_non_empty_bin p y id ≡ some id'
      → Before id' s × (bins_beyond p y q id' < bins_beyond p y q id)
  step-Before id id' s a more h =
      let (b, found, same) =
        next_non_empty_bin-IsNext (side_at y) p y id id' q.bins.sorted a.room h in
      (
        record {
          room = next_in_range p y q id id' a.room h;
          part = a.part;
          ahead = omega (arith, same, not_zero→pos s.amount_out_left more);
        },
        bins_beyond_falls p y q id id' a.room h,
      )

  start : SwapIn
  start = record { amount_in = 0; amount_out_left = amount_out; total_fee = 0 }

  start-Before : Before p.active_id start
  unfolding start
  start-Before = record { room = q.active; part = omega arith; ahead = omega arith }

  settle :
      (last : ℕ) (r : SwapIn)
      → After last r
      → ((r.amount_out_left == 0) ≡ true) ⊎ (next_non_empty_bin p y last ≡ none)
      → r.amount_out_left ≡ amount_out - reachable p y
  settle last r a (inl done) = omega (arith, a.within, zero_test→eq _ done)
  settle last r a (inr end) =
      let none_left = next-none (side_at y) p y last q.bins.sorted a.room end in
      omega (arith, a.within, a.emptied, a.part, none_left)

-- On a quotable pool, and for an output of 128 bits, the simulation of an exact output returns: no
-- panic, and the walk ends within its fuel. What it leaves undelivered is the part of the output
-- that exceeds what the bins from the active one on hold.
pub simulate_swap_in_at-delivers :
    (p : LbPool) (amount_out : ℕ) (y : Bool) (timestamp : ℕ) (q : Quotable p y)
    → Fits 128 amount_out
    → Returns
        (simulate_swap_in_at p amount_out y timestamp)
        (λ r. r.amount_out_left ≡ amount_out - reachable p y)
unfolding simulate_swap_in_at start
simulate_swap_in_at-delivers p amount_out y timestamp q wanted =
    let refs = update_references p timestamp in
    let (r, e, end) =
      walk_bins_rule (visit_in p y refs) (λ s. s.amount_out_left == 0) (next_non_empty_bin p y)
        (Before p y amount_out refs q wanted) (After p y amount_out refs q wanted)
        (bins_beyond p y q) (visit-After p y amount_out refs q wanted)
        (step-Before p y amount_out refs q wanted) (walk_fuel p) p.active_id
        (start p y amount_out refs q wanted) (bins_beyond-lt-fuel p y q p.active_id)
        (start-Before p y amount_out refs q wanted) in
    (r, e, settle p y amount_out refs q wanted end.0 r end.1 end.2)
