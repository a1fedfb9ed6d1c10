-- ===== src/V2/Product.antt =====
-- The constant-product formulas of src/v2/pool.rs, within the ranges of a Uniswap V2 pair.
use evm_dex_pool.Base.{ℕ, ◌+◌, ◌-◌, ◌*◌, ◌/◌, ◌^◌, ◌≤◌, ◌<◌, ◌≡◌, subst, ap, ok, arith}
use evm_dex_pool.Base.Division.{mul-cancel, mul_bound, div-lt, le-div, div_bounds}
use evm_dex_pool.Uint
use evm_dex_pool.Uint.{Fits}
use evm_dex_pool.V2.{fee_denominator, product_output, product_input}

-- Reserves and amounts are `uint112`s, as in the pair contract, and the fee is below 100%.
pub record InRange (fee reserve_in reserve_out amount : ℕ) : Type 0 where
  pub fee_small : fee < fee_denominator
  pub in_fits : Fits 112 reserve_in
  pub in_pos : 0 < reserve_in
  pub out_fits : Fits 112 reserve_out
  pub out_pos : 0 < reserve_out
  pub amount_fits : Fits 112 amount
  pub amount_pos : 0 < amount

-- The formulas in unbounded numbers.
abbrev pub net : ℕ → ℕ → ℕ
net fee amount_in = amount_in * (fee_denominator - fee)

abbrev pub exact_output : ℕ → ℕ → ℕ → ℕ → ℕ
exact_output fee reserve_in reserve_out amount_in =
    net fee amount_in * reserve_out / (reserve_in * fee_denominator + net fee amount_in)

abbrev pub exact_input : ℕ → ℕ → ℕ → ℕ → ℕ
exact_input fee reserve_in reserve_out amount_out =
    reserve_in
      * amount_out
      * fee_denominator
      / ((reserve_out - amount_out) * (fee_denominator - fee))
    + 1

exchange : (x a q s : ℕ) → q * (x + a) ≤ a * (q + s) → x * (q + s) ≤ (x + a) * s
exchange x a q s h = grind arith

covers :
    (out x paid s g : ℕ)
    → x * out * fee_denominator ≤ paid * (s * g)
    → out * (x * fee_denominator + paid * g) ≤ paid * g * (out + s)
covers out x paid s g h = grind arith

module _ (fee reserve_in reserve_out amount : ℕ)
    (r : InRange fee reserve_in reserve_out amount) where
  net_le : net fee amount ≤ (2 ^ 112 - 1) * fee_denominator
  net_le =
      mul_bound amount _ (2 ^ 112 - 1) fee_denominator (omega (arith, r.amount_fits)) (omega arith)

  net_pos : 0 < net fee amount
  net_pos = omega (
    arith,
    mul_bound 1 1 amount (fee_denominator - fee) (omega (arith, r.amount_pos))
        (omega (arith, r.fee_small)),
  )

  numerator_le : net fee amount * reserve_out ≤ (2 ^ 112 - 1) * fee_denominator * (2 ^ 112 - 1)
  numerator_le =
      mul_bound _ reserve_out ((2 ^ 112 - 1) * fee_denominator) (2 ^ 112 - 1) net_le
        (omega (arith, r.out_fits))

  denominator_pos : 0 < reserve_in * fee_denominator + net fee amount
  denominator_pos = omega (arith, net_pos)

  numerator_lt :
      net fee amount * reserve_out < reserve_out * (reserve_in * fee_denominator + net fee amount)
  numerator_lt =
      let e : 1 * 1 ≤ reserve_out * (reserve_in * fee_denominator) =
        mul_bound 1 1 reserve_out (reserve_in * fee_denominator) (omega (arith, r.out_pos))
          (omega (arith, r.in_pos)) in
      grind arith

  pub exact_output-lt : exact_output fee reserve_in reserve_out amount < reserve_out
  exact_output-lt = div-lt reserve_out _ _ denominator_pos numerator_lt

  -- Nothing wraps, and the guard against draining the pair never fires.
  pub product_output-eq :
      product_output fee reserve_in reserve_out amount
      ≡ ok (exact_output fee reserve_in reserve_out amount)
  unfolding product_output
  product_output-eq =
      rw (Uint.sub-eq 256 fee_denominator fee (omega (arith, r.fee_small)) (omega arith)) rw
        (Uint.saturating_mul-eq 256 amount (fee_denominator - fee) (omega (arith, net_le))) rw
        (Uint.mul-eq 256 (net fee amount) reserve_out (omega (arith, numerator_le))) rw
        (Uint.mul-eq 256 reserve_in fee_denominator (omega (arith, r.in_fits))) rw
        (Uint.add-eq 256 (reserve_in * fee_denominator) (net fee amount)
          (omega (arith, net_le, r.in_fits)))
        rw
        (Uint.div-eq (net fee amount * reserve_out) (reserve_in * fee_denominator + net fee amount)
          denominator_pos)
        (ground (arith, exact_output-lt))

  -- The product of the reserves does not fall.
  pub product_grows :
      reserve_in * reserve_out
      ≤ (reserve_in + amount) * (reserve_out - exact_output fee reserve_in reserve_out amount)
  product_grows =
      let q = exact_output fee reserve_in reserve_out amount in
      let g = fee_denominator - fee in
      let e : q * (reserve_in + amount) ≤ amount * reserve_out =
        mul-cancel (q * (reserve_in + amount)) (amount * reserve_out) g (omega (arith, r.fee_small))
          (grind (
            arith,
            div_bounds (net fee amount * reserve_out)
                (reserve_in * fee_denominator + net fee amount) denominator_pos,
            mul_bound (q * reserve_in) g (q * reserve_in) fee_denominator (omega arith)
                (omega arith),
          )) in
      let back : q + (reserve_out - q) ≡ reserve_out = omega (arith, exact_output-lt) in
      subst (λ n. reserve_in * n ≤ (reserve_in + amount) * (reserve_out - q)) back
        (exchange reserve_in amount q (reserve_out - q) (rw back e))

  -- Of an amount below the reserve that pays it, the input is exact too.
  pub product_input-eq :
      amount < reserve_out
      → product_input fee reserve_in reserve_out amount
        ≡ ok (exact_input fee reserve_in reserve_out amount)
  unfolding product_input
  product_input-eq below =
      let top : reserve_in * amount ≤ (2 ^ 112 - 1) * (2 ^ 112 - 1) =
        mul_bound reserve_in amount (2 ^ 112 - 1) (2 ^ 112 - 1) (omega (arith, r.in_fits))
          (omega (arith, r.amount_fits)) in
      let bottom : (reserve_out - amount) * (fee_denominator - fee)
          ≤ (2 ^ 112 - 1) * fee_denominator =
        mul_bound (reserve_out - amount) (fee_denominator - fee) (2 ^ 112 - 1) fee_denominator
          (omega (arith, r.out_fits)) (omega arith) in
      let bottom_pos : 1 * 1 ≤ (reserve_out - amount) * (fee_denominator - fee) =
        mul_bound 1 1 (reserve_out - amount) (fee_denominator - fee) (omega arith)
          (omega (arith, r.fee_small)) in
      let quotient : reserve_in
            * amount
            * fee_denominator
            / ((reserve_out - amount) * (fee_denominator - fee))
          ≤ reserve_in * amount * fee_denominator =
        omega (
          arith,
          div_bounds (reserve_in * amount * fee_denominator)
              ((reserve_out - amount) * (fee_denominator - fee)) (omega arith),
        ) in
      rw (Uint.mul-eq 256 reserve_in amount (omega arith)) rw
        (Uint.mul-eq 256 (reserve_in * amount) fee_denominator (omega arith)) rw
        (Uint.sub-eq 256 reserve_out amount (omega arith) (omega (arith, r.out_fits))) rw
        (Uint.sub-eq 256 fee_denominator fee (omega (arith, r.fee_small)) (omega arith)) rw
        (Uint.mul-eq 256 (reserve_out - amount) (fee_denominator - fee) (omega arith)) rw
        (Uint.div-eq (reserve_in * amount * fee_denominator)
          ((reserve_out - amount) * (fee_denominator - fee)) (omega arith))
        (ap ok (
          Uint.add-eq 256
            (reserve_in
              * amount
              * fee_denominator
              / ((reserve_out - amount) * (fee_denominator - fee)))
            1 (omega arith)))

  -- The input that is quoted for an output buys that output.
  pub exact_input-covers :
      amount < reserve_out
      → amount
        ≤ exact_output fee reserve_in reserve_out (exact_input fee reserve_in reserve_out amount)
  exact_input-covers below =
      let g = fee_denominator - fee in
      let s = reserve_out - amount in
      let paid = exact_input fee reserve_in reserve_out amount in
      let g_pos : 0 < g = omega (arith, r.fee_small) in
      let e : reserve_in * amount * fee_denominator ≤ paid * (s * g) = grind (
        arith,
        (div_bounds (reserve_in * amount * fee_denominator) (s * g)
            (omega (arith, mul_bound 1 1 s g (omega arith) g_pos))),
      ) in
      let back : amount + s ≡ reserve_out = omega arith in
      le-div amount (net fee paid * reserve_out) (reserve_in * fee_denominator + net fee paid)
        (omega (arith, mul_bound 1 1 reserve_in fee_denominator r.in_pos (omega arith)))
        (subst (λ n. amount * (reserve_in * fee_denominator + net fee paid) ≤ net fee paid * n) back
          (covers amount reserve_in paid s g e))
