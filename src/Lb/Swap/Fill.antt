-- ===== src/Lb/Swap/Fill.antt =====
-- `fill_bin`: what one bin takes and gives.
use evm_dex_pool.Base.{
  ℕ, ◌+◌, ◌-◌, ◌*◌, ◌^◌, ◌≤◌, ◌<◌, min, ◌≡◌, refl, ◌⊎◌, inl, inr, Bool, leb, Returns, arith,
  Bool-cases, leb→le, leb-false→lt, subst, sym, dec_lt,
}
use evm_dex_pool.Base.Division.{mul_bound, ceil_div, ceil_div_bounds, ceil_div-le, lt-ceil_div}
use evm_dex_pool.Uint
use evm_dex_pool.Uint.{Fits}
use evm_dex_pool.Lb.Math.{precision, max_fee}
use evm_dex_pool.Lb.Math.Fees.{get_fee_amount-eq, get_fee_amount_from-eq, fee-le}
use evm_dex_pool.Lb.Swap.{fill_bin}
use evm_dex_pool.Lb.Swap.Rates.{
  cost, bought, bought-lt, bought-cost, amount_to_pay-eq, amount_bought-eq, rate_in, rate_out,
  rate_in_pos, rate_out_pos,
}

-- The whole bin can be bought, with its fee, for an amount of 128 bits.
abbrev pub Affordable : Bool → ℕ → ℕ → Type 0
Affordable y price reserve = 10 * cost y price reserve + 8 < 9 * 2 ^ 128

-- What the whole bin costs with its fee, in unbounded numbers.
abbrev pub gross_cost : Bool → ℕ → ℕ → ℕ → ℕ
gross_cost y price fee reserve =
    cost y price reserve + ceil_div (cost y price reserve * fee) (precision - fee)

-- An empty bin costs nothing.
pub gross_cost_empty :
    (y : Bool) (price fee : ℕ) → 0 < price → fee ≤ max_fee → gross_cost y price fee 0 ≡ 0
gross_cost_empty y price fee positive capped =
    let free : cost y price 0 ≡ 0 = omega (
      arith,
      ceil_div-le 0 (0 * rate_in y price) (rate_out y price) (rate_out_pos y price positive)
          (omega arith),
    ) in
    omega (
      arith,
      free,
      ceil_div-le 0 (cost y price 0 * fee) (precision - fee) (omega arith)
          (subst (λ c. c * fee ≤ 0 * (precision - fee)) (sym free) (omega arith)),
    )

-- What (taken, fee, out) a bin with this reserve may answer to the input `left`.
pub record Filled (y : Bool) (price fee reserve left : ℕ) (r : ℕ × ℕ × ℕ) : Type 0 where
  pub taken_is : r.0 ≡ min (gross_cost y price fee reserve) left
  pub taken_le : r.0 ≤ left
  pub fee_le : r.1 ≤ r.0
  pub out_le : r.2 ≤ reserve
  pub exhausted : (r.0 ≡ left) ⊎ (r.2 ≡ reserve)
  pub paid_for : r.2 ≤ bought y price (r.0 - r.1)

-- A part `e` of the fee on `m` is less than the fee found in `m + e`.
part_fee-lt : (m t d e : ℕ) → 0 < d → e < ceil_div (m * t) d → e < ceil_div ((m + e) * t) (d + t)
part_fee-lt m t d e h below =
    lt-ceil_div e ((m + e) * t) (d + t) (omega arith) (grind (arith, ceil_div_bounds (m * t) d h))

-- Below the gross price of a bin the net input is below its net price.
net-lt :
    (m t d left : ℕ)
    → 0 < d
    → left < m + ceil_div (m * t) d
    → 0 < m
    → left - ceil_div (left * t) (d + t) < m
net-lt m t d left h below pos = elim (dec_lt left m) [
  | yes small ↦ omega arith
  | no large ↦
      let e : m + (left - m) ≡ left = omega arith in
      omega (
        arith,
        subst (λ l. left - m < ceil_div (l * t) (d + t)) e
            (part_fee-lt m t d (left - m) h (omega arith)),
      )
]

fee_le-amount : (left fee : ℕ) → fee ≤ max_fee → ceil_div (left * fee) precision ≤ left
fee_le-amount left fee h =
    ceil_div-le left (left * fee) precision (omega arith)
      (omega (arith, mul_bound left fee left max_fee (omega arith) h))

module _ (y : Bool) (price fee reserve left : ℕ) (positive : 0 < price) (word : Fits 256 price)
    (capped : fee ≤ max_fee) (fits : Fits 128 reserve) (stored : 0 < reserve)
    (affordable : Affordable y price reserve) (input : Fits 128 left) where
  cost_pos : 0 < cost y price reserve
  cost_pos =
      lt-ceil_div 0 (reserve * rate_in y price) (rate_out y price) (rate_out_pos y price positive)
        (grind (arith, rate_in_pos y price positive))

  max_in : ℕ
  max_in = cost y price reserve

  top_fee : ℕ
  top_fee = ceil_div (max_in * fee) (precision - fee)

  part_fee : ℕ
  part_fee = ceil_div (left * fee) precision

  gross : Uint.saturating_add 128 max_in top_fee ≡ max_in + top_fee
  unfolding Uint.saturating_add max_in top_fee
  gross = omega (arith, fee-le (cost y price reserve) fee (omega arith) capped)

  net-lt-cost : left < max_in + top_fee → left - part_fee < max_in
  unfolding max_in top_fee part_fee
  net-lt-cost below =
      subst (λ p. left - ceil_div (left * fee) p < cost y price reserve) {x = precision - fee + fee}
        (omega arith)
        (net-lt (cost y price reserve) fee (precision - fee) left (omega arith) below cost_pos)

  net : Uint.sub 128 left part_fee ≡ left - part_fee
  unfolding part_fee
  net = Uint.sub-eq 128 left _ (fee_le-amount left fee capped) input

  whole_bin :
      max_in + top_fee ≤ left → Filled y price fee reserve left (max_in + top_fee, top_fee, reserve)
  unfolding max_in top_fee
  whole_bin h = record {
    taken_is = omega arith;
    taken_le = h;
    fee_le = omega arith;
    out_le = omega arith;
    exhausted = inr refl;
    paid_for =
        subst (λ n. reserve ≤ bought y price n) {x = cost y price reserve} (omega arith)
          (bought-cost y price positive reserve);
  }

  part_out-lt : left < max_in + top_fee → bought y price (left - part_fee) < 2 ^ 128
  unfolding max_in
  part_out-lt h =
      omega (arith, bought-lt y price positive reserve (left - part_fee) (net-lt-cost h))

  part_bin :
      left < max_in + top_fee
      → Filled y price fee reserve left
          (left, part_fee, min (bought y price (left - part_fee)) reserve)
  unfolding part_fee max_in top_fee
  part_bin h = record {
    taken_is = omega arith;
    taken_le = omega arith;
    fee_le = fee_le-amount left fee capped;
    out_le = omega arith;
    exhausted = inl refl;
    paid_for = omega arith;
  }

  -- A bin that can be afforded is filled with no error and no panic, and within its bounds.
  pub fill_bin-Filled :
      Returns (fill_bin y price fee reserve left) (Filled y price fee reserve left)
  unfolding fill_bin max_in top_fee part_fee
  fill_bin-Filled = rw (amount_to_pay-eq price positive word y reserve fits) (
      rw (Uint.to-eq 128 (cost y price reserve) (omega arith)) (
        rw (get_fee_amount-eq (cost y price reserve) fee (omega arith) capped) (
          rw gross (elim (Bool-cases (leb (max_in + top_fee) left)) [
            | inl whole ↦ (_, rw whole, whole_bin (leb→le _ _ whole))
            | inr part ↦ (
              (left, part_fee, min (bought y price (left - part_fee)) reserve),
              rw (
                part,
                get_fee_amount_from-eq left fee input capped,
                net,
                amount_bought-eq price positive word y (left - part_fee) (omega arith),
                Uint.to-eq 128 (bought y price (left - part_fee))
                    (part_out-lt (leb-false→lt _ _ part)),
              ),
              part_bin (leb-false→lt _ _ part),
            )
          ]))))
