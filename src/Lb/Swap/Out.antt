-- ===== src/Lb/Swap/Out.antt =====
-- `simulate_swap_out_at` of src/lb/pool.rs: what its walk over the bins keeps.
use evm_dex_pool.Base.{
  ℕ, suc, ◌+◌, ◌-◌, ◌≤◌, ◌<◌, ◌^◌, ◌≡◌, refl, ◌⊎◌, inl, inr, Bool, true, false, none, some, ltb,
  ◌==◌, Returns, arith, Option-cases, Bool-cases, ltb→lt, ltb-false→le, ap, ◌∙◌, lt→ltb,
  not_zero→pos, zero_test→eq,
}
use evm_dex_pool.Uint
use evm_dex_pool.Uint.{Fits}
use evm_dex_pool.BTreeMap
use evm_dex_pool.BTreeMap.Order.{get-Every}
use evm_dex_pool.Lb.Math.{get_price_from_id}
use evm_dex_pool.Lb.Math.Price.{price-Fits}
use evm_dex_pool.Lb.Pool.{LbPool, Bin, next_non_empty_bin, update_references}
use evm_dex_pool.Lb.Pool.Bins.{Stored}
use evm_dex_pool.Lb.Swap.{
  SwapOut, charge, reserve_out, fee_at, visit_out, walk_fuel, simulate_swap_out_at,
}
use evm_dex_pool.Lb.Swap.Ahead.{reachable, bin_cost, cost_from, capacity, fee_at-le}
use evm_dex_pool.Lb.Swap.Walk.{walk_bins_rule}
use evm_dex_pool.Lb.Swap.Fill.{Affordable, gross_cost, gross_cost_empty, Filled, fill_bin-Filled}
use evm_dex_pool.Lb.Swap.Bounds.{
  side, side_at, from_here, beyond, from_here-le, from_here-get, from_here-absent, Quotable,
  next_non_empty_bin-IsNext, bins_beyond, bins_beyond-lt-fuel, bins_beyond_falls, next_in_range,
  next-none,
}

-- What a simulation returns: the fees and the rest are within the input, no more comes out than
-- lies ahead, and input is left over only once all of that has come out.
abbrev pub Settled : LbPool → Bool → ℕ → SwapOut → Type 0
Settled p y amount_in r =
    (r.total_fee + r.amount_in_left ≤ amount_in)
    × (r.amount_out ≤ reachable p y)
    × ((r.amount_in_left ≡ 0) ⊎ (r.amount_out ≡ reachable p y))

module _ (p : LbPool) (y : Bool) (amount_in : ℕ) (refs : ℕ × ℕ) (q : Quotable p y)
    (input : Fits 128 amount_in) where
  record Before (id : ℕ) (s : SwapOut) : Type 0 where
    room : suc id < 2 ^ 32
    spent : s.total_fee + s.amount_in_left ≤ amount_in
    ahead : s.amount_out + from_here (side_at y) y id p.bins ≡ reachable p y
    left_over :
        s.amount_in_left - cost_from p y refs id ≡ amount_in - cost_from p y refs p.active_id

  record After (id : ℕ) (s : SwapOut) : Type 0 where
    room : suc id < 2 ^ 32
    spent : s.total_fee + s.amount_in_left ≤ amount_in
    within : s.amount_out + beyond (side_at y) y id p.bins ≤ reachable p y
    left_over :
        s.amount_in_left - beyond (bin_cost p y refs) y id p.bins
        ≡ amount_in - cost_from p y refs p.active_id
    emptied :
        (s.amount_in_left ≡ 0) ⊎ (s.amount_out + beyond (side_at y) y id p.bins ≡ reachable p y)

  reachable-Fits : reachable p y < 2 ^ 128
  reachable-Fits = omega (arith, from_here-le (side_at y) y p.active_id p.bins, q.solvent)

  side-Fits : (id : ℕ) (b : Bin) → BTreeMap.get id p.bins ≡ some b → Fits 128 (side y b)
  unfolding reserve_out
  side-Fits id b e =
      let (small, stored, x, z) = get-Every Stored id b p.bins q.bins.stored e in ground arith

  nothing : (b : Bin) → ltb 0 (side y b) ≡ false → side y b ≡ 0
  nothing b h = omega (arith, ltb-false→le 0 (side y b) h)

  -- A bin that is not stored, or has nothing to give, is passed over.
  pass_over :
      (id : ℕ) (s : SwapOut)
      → reserve_out y (BTreeMap.get id p.bins) ≡ 0
      → from_here (side_at y) y id p.bins ≡ beyond (side_at y) y id p.bins
      → cost_from p y refs id ≡ beyond (bin_cost p y refs) y id p.bins
      → Before id s
      → Returns (visit_out p y refs id s) (After id)
  unfolding visit_out
  pass_over id s e same same_cost b = (
    s,
    rw e,
    record {
      room = b.room;
      spent = b.spent;
      within = omega arith;
      left_over = omega (arith, b.left_over, same_cost);
      emptied = inr (omega arith);
    },
  )

  charged :
      (id : ℕ) (s : SwapOut) (b : Bin) (r : ℕ × ℕ × ℕ)
      → Before id s
      → from_here (side_at y) y id p.bins ≡ side y b + beyond (side_at y) y id p.bins
      → Fits 128 (side y b)
      → cost_from p y refs id ≡ bin_cost p y refs id b + beyond (bin_cost p y refs) y id p.bins
      → Filled y (get_price_from_id id p.bin_step) (fee_at p refs id) (side y b) s.amount_in_left r
      → After id (charge s r)
  unfolding charge Uint.add Uint.sub
  charged id s b r before moved fits moved_cost f = record {
    room = before.room;
    spent = omega arith;
    within = omega (arith, reachable-Fits);
    left_over = omega (arith, before.left_over, moved_cost, f.taken_is, f.taken_le);
    emptied = ground (arith, reachable-Fits);
  }

  -- A bin with a reserve is filled.
  take_from :
      (id : ℕ) (s : SwapOut) (b : Bin)
      → BTreeMap.get id p.bins ≡ some b
      → 0 < side y b
      → Before id s
      → Returns (visit_out p y refs id s) (After id)
  unfolding visit_out
  take_from id s b e stored before =
      let (price_pos, affordable) =
        get-Every
          (λ k c.
            (0 < get_price_from_id k p.bin_step)
            × Affordable y (get_price_from_id k p.bin_step) (side y c))
          id b p.bins q.priced e in
      let moved = from_here-get (side_at y) y id b p.bins q.bins.sorted e in
      let (r, filled, f) =
        fill_bin-Filled y (get_price_from_id id p.bin_step) (fee_at p refs id) (side y b)
          s.amount_in_left price_pos (price-Fits id p.bin_step q.step q.step_fits)
          (fee_at-le p refs id) (side-Fits id b e) stored affordable (omega arith) in
      (
        charge s r,
        rw (e, lt→ltb 0 (side y b) stored, filled),
        charged id s b r before moved (side-Fits id b e)
            (from_here-get (bin_cost p y refs) y id b p.bins q.bins.sorted e) f,
      )

  empty_cost :
      (id : ℕ) (b : Bin)
      → BTreeMap.get id p.bins ≡ some b
      → side y b ≡ 0
      → bin_cost p y refs id b ≡ 0
  empty_cost id b e empty =
      let (price_pos, _) =
        get-Every
          (λ k c.
            (0 < get_price_from_id k p.bin_step)
            × Affordable y (get_price_from_id k p.bin_step) (side y c))
          id b p.bins q.priced e in
      ap (gross_cost y (get_price_from_id id p.bin_step) (fee_at p refs id)) empty
      ∙ gross_cost_empty y (get_price_from_id id p.bin_step) (fee_at p refs id) price_pos
          (fee_at-le p refs id)

  visit-After : (id : ℕ) (s : SwapOut) → Before id s → Returns (visit_out p y refs id s) (After id)
  unfolding reserve_out
  visit-After id s b = elim (Option-cases (BTreeMap.get id p.bins)) [
    | inl e ↦
        pass_over id s (ap (reserve_out y) e ∙ refl) (from_here-absent (side_at y) y id p.bins e)
          (from_here-absent (bin_cost p y refs) y id p.bins e) b
    | inr (v, e) ↦ elim (Bool-cases (ltb 0 (side y v))) [
      | inl full ↦ take_from id s v e (ltb→lt _ _ full) b
      | inr empty ↦
          pass_over id s (ap (reserve_out y) e ∙ nothing v empty)
            (omega
              (arith, from_here-get (side_at y) y id v p.bins q.bins.sorted e, nothing v empty))
            (omega (
              arith,
              from_here-get (bin_cost p y refs) y id v p.bins q.bins.sorted e,
              empty_cost id v e (nothing v empty),
            ))
            b
    ]
  ]

  next_cost :
      (id id' : ℕ)
      → suc id < 2 ^ 32
      → next_non_empty_bin p y id ≡ some id'
      → beyond (bin_cost p y refs) y id p.bins ≡ cost_from p y refs id'
  next_cost id id' room h =
      let (b, found, same) =
        next_non_empty_bin-IsNext (bin_cost p y refs) p y id id' q.bins.sorted room h in
      same

  step-Before :
      (id id' : ℕ) (s : SwapOut)
      → After id s
      → (s.amount_in_left == 0) ≡ false
      → next_non_empty_bin p y id ≡ some id'
      → Before id' s × (bins_beyond p y q id' < bins_beyond p y q id)
  step-Before id id' s a more h =
      let (b, found, same) =
        next_non_empty_bin-IsNext (side_at y) p y id id' q.bins.sorted a.room h in
      (
        record {
          room = next_in_range p y q id id' a.room h;
          spent = a.spent;
          ahead = omega (arith, same, not_zero→pos s.amount_in_left more);
          left_over = omega (arith, a.left_over, next_cost id id' a.room h);
        },
        bins_beyond_falls p y q id id' a.room h,
      )

  start : SwapOut
  start = record { amount_in_left = amount_in; amount_out = 0; total_fee = 0 }

  start-Before : Before p.active_id start
  unfolding start
  start-Before = record {
    room = q.active;
    spent = omega arith;
    ahead = omega arith;
    left_over = refl;
  }

  settle :
      (last : ℕ) (r : SwapOut)
      → After last r
      → ((r.amount_in_left == 0) ≡ true) ⊎ (next_non_empty_bin p y last ≡ none)
      → Settled p y amount_in r × (r.amount_in_left ≡ amount_in - cost_from p y refs p.active_id)
  settle last r a (inl done) =
      let empty = zero_test→eq _ done in
      ((a.spent, omega (arith, a.within), inl empty), omega (arith, a.left_over, empty))
  settle last r a (inr end) =
      let none_left = next-none (side_at y) p y last q.bins.sorted a.room end in
      (
        (a.spent, omega (arith, a.within), ground (arith, a.emptied)),
        omega (arith, a.left_over, next-none (bin_cost p y refs) p y last q.bins.sorted a.room end),
      )

-- What is left of the input is what it exceeds the cost of the bins ahead by.
pub simulate_swap_out_at-left :
    (p : LbPool) (amount_in : ℕ) (y : Bool) (timestamp : ℕ) (q : Quotable p y)
    (input : Fits 128 amount_in)
    → Returns
        (simulate_swap_out_at p amount_in y timestamp)
        (λ r. Settled p y amount_in r × (r.amount_in_left ≡ amount_in - capacity p y timestamp))
unfolding simulate_swap_out_at start
simulate_swap_out_at-left p amount_in y timestamp q input =
    let refs = update_references p timestamp in
    let (r, e, end) =
      walk_bins_rule (visit_out p y refs) (λ s. s.amount_in_left == 0) (next_non_empty_bin p y)
        (Before p y amount_in refs q input) (After p y amount_in refs q input) (bins_beyond p y q)
        (visit-After p y amount_in refs q input) (step-Before p y amount_in refs q input)
        (walk_fuel p) p.active_id (start p y amount_in refs q input)
        (bins_beyond-lt-fuel p y q p.active_id) (start-Before p y amount_in refs q input) in
    (r, e, settle p y amount_in refs q input end.0 r end.1 end.2)

-- On a quotable pool, and for an input of 128 bits, the simulation of an exact input returns: no
-- panic, and the walk ends within its fuel. The fees and the input that is left are together at
-- most the input, no more comes out than the bins from the active one on hold, and either no input
-- is left or all that they hold has come out.
pub simulate_swap_out_at-Settled :
    (p : LbPool) (amount_in : ℕ) (y : Bool) (timestamp : ℕ) (q : Quotable p y)
    (input : Fits 128 amount_in)
    → Returns (simulate_swap_out_at p amount_in y timestamp) (Settled p y amount_in)
simulate_swap_out_at-Settled p amount_in y timestamp q input =
    let (r, e, (settled, left)) = simulate_swap_out_at-left p amount_in y timestamp q input in
    (r, e, settled)
