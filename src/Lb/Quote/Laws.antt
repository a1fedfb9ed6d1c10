-- ===== src/Lb/Quote/Laws.antt =====
-- The quotes of src/lb/pool.rs on a quotable pool.
use evm_dex_pool.Base.{
  ℕ, ◌≤◌, ◌<◌, ◌^◌, ◌≡◌, ◌⊎◌, inl, inr, Bool, ok, err, Returns, arith, lt→ltb,
  insufficient_liquidity, dec_lt,
}
use evm_dex_pool.Uint
use evm_dex_pool.Uint.{Fits}
use evm_dex_pool.Lb.Pool.{LbPool}
use evm_dex_pool.Lb.Swap.{SwapOut, simulate_swap_out_at}
use evm_dex_pool.Lb.Swap.Bounds.{Quotable}
use evm_dex_pool.Lb.Swap.Ahead.{reachable, capacity}
use evm_dex_pool.Lb.Swap.Out.{simulate_swap_out_at-left}
use evm_dex_pool.Lb.Swap.In.{simulate_swap_in_at-delivers}
use evm_dex_pool.Lb.Quote.{direction_in, direction_out, calculate_output_at, calculate_input_at}

-- What a quote that is given says of the simulation in its direction.
abbrev pub IsQuoted : LbPool → ℕ → ℕ → ℕ → Bool → SwapOut → Type 0
IsQuoted p token_in amount_in timestamp y r =
    (simulate_swap_out_at p amount_in y timestamp ≡ ok r)
    × (r.amount_in_left ≡ 0)
    × (r.amount_out ≤ reachable p y)
    × (calculate_output_at p token_in amount_in timestamp ≡ ok r.amount_out)

module _ (p : LbPool) (token_in amount_in timestamp : ℕ) (y : Bool) (q : Quotable p y)
    (dir : direction_in p token_in ≡ ok y) (fits : Fits 128 amount_in) where
  quoted :
      amount_in ≤ capacity p y timestamp
      → (r : SwapOut) × IsQuoted p token_in amount_in timestamp y r
  unfolding calculate_output_at Uint.try_into
  quoted enough =
      let (r, e, (settled, left)) = simulate_swap_out_at-left p amount_in y timestamp q fits in
      (
        r,
        (
          e,
          omega (arith, left),
          settled.1,
          rw (dir, lt→ltb amount_in (2 ^ 128) fits, e) (ground (arith, left)),
        ),
      )

  refused :
      capacity p y timestamp < amount_in
      → calculate_output_at p token_in amount_in timestamp ≡ err insufficient_liquidity
  unfolding calculate_output_at Uint.try_into
  refused short =
      let (r, e, (settled, left)) = simulate_swap_out_at-left p amount_in y timestamp q fits in
      rw (dir, lt→ltb amount_in (2 ^ 128) fits, e) (ground (arith, left))

  -- For the token of its direction and an amount of 128 bits, an output quote on a quotable pool is
  -- decided by what the bins from the active one on cost together, each bought whole at its price
  -- and with its fee at the time of the quote. Where the amount does not exceed that, the
  -- simulation in this direction uses all of it, and the quote is what comes out, no more than
  -- these bins hold; otherwise the quote says that the liquidity does not suffice.
  pub calculate_output_at-decides :
      ((amount_in ≤ capacity p y timestamp)
        × ((r : SwapOut) × IsQuoted p token_in amount_in timestamp y r))
      ⊎ ((capacity p y timestamp < amount_in)
          × (calculate_output_at p token_in amount_in timestamp ≡ err insufficient_liquidity))
  calculate_output_at-decides = elim (dec_lt (capacity p y timestamp) amount_in) [
    | yes short ↦ inr (short, refused short)
    | no enough ↦ inl (omega arith, quoted (omega arith))
  ]

module _ (p : LbPool) (token_out amount_out timestamp : ℕ) (y : Bool) (q : Quotable p y)
    (dir : direction_out p token_out ≡ ok y) (fits : Fits 128 amount_out) where
  succeeds :
      amount_out ≤ reachable p y
      → Returns (calculate_input_at p token_out amount_out timestamp) (λ _. Unit {0})
  unfolding calculate_input_at Uint.try_into
  succeeds enough =
      let (r, e, rest) = simulate_swap_in_at-delivers p amount_out y timestamp q fits in
      (r.amount_in, rw (dir, lt→ltb amount_out (2 ^ 128) fits, e) (ground arith), tt)

  fails :
      reachable p y < amount_out
      → calculate_input_at p token_out amount_out timestamp ≡ err insufficient_liquidity
  unfolding calculate_input_at Uint.try_into
  fails short =
      let (r, e, rest) = simulate_swap_in_at-delivers p amount_out y timestamp q fits in
      rw (dir, lt→ltb amount_out (2 ^ 128) fits, e) (ground arith)

  -- An input quote on a quotable pool, for the token of its direction and an amount of 128 bits,
  -- succeeds where the bins from the active one on hold the amount, and otherwise says that the
  -- liquidity does not suffice.
  pub calculate_input_at-decides :
      ((amount_out ≤ reachable p y)
        × Returns (calculate_input_at p token_out amount_out timestamp) (λ _. Unit {0}))
      ⊎ ((reachable p y < amount_out)
          × (calculate_input_at p token_out amount_out timestamp ≡ err insufficient_liquidity))
  calculate_input_at-decides = elim (dec_lt (reachable p y) amount_out) [
    | yes short ↦ inr (short, fails short)
    | no enough ↦ inl (omega arith, succeeds (omega arith))
  ]
