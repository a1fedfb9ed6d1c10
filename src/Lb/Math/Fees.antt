-- ===== src/Lb/Math/Fees.antt =====
-- The fee functions of src/lb/math.rs.
use native.Mathlib.Nat.{mul-zero}
use evm_dex_pool.Base.{
  ℕ, ◌+◌, ◌-◌, ◌*◌, ◌/◌, ◌^◌, ◌≤◌, ◌<◌, min, ◌≡◌, ap, subst, ◌∙◌, ◌==◌, ok, arith, Bool-cases,
  ==_iff, inl, inr,
}
use evm_dex_pool.Base.Division.{mul_bound, ceil_div, ceil_div_bounds, ceil_div-le, ceil_div_unique}
use evm_dex_pool.Uint
use evm_dex_pool.Uint.{Fits}
use evm_dex_pool.Lb.Math.{
  precision, max_fee, get_base_fee, get_variable_fee, get_total_fee, get_fee_amount_from,
  get_fee_amount,
}

-- The formula of the fee parameters, in unbounded numbers.
abbrev pub exact_total_fee : ℕ → ℕ → ℕ → ℕ → ℕ
exact_total_fee base_factor bin_step accumulator control =
    min
      (base_factor * bin_step * 10_000_000_000
        + (accumulator * bin_step * (accumulator * bin_step) * control + 99) / 100)
      max_fee

module _ (base_factor bin_step accumulator control : ℕ) (bf : Fits 16 base_factor)
    (bs : Fits 16 bin_step) (va : Fits 32 accumulator) (vc : Fits 32 control) where
  base_bound : base_factor * bin_step ≤ (2 ^ 16 - 1) * (2 ^ 16 - 1)
  base_bound = mul_bound _ _ (2 ^ 16 - 1) (2 ^ 16 - 1) (omega arith) (omega arith)

  get_base_fee-eq : get_base_fee base_factor bin_step ≡ base_factor * bin_step * 10_000_000_000
  unfolding get_base_fee
  get_base_fee-eq =
      rw (Uint.mul-eq 128 base_factor bin_step (omega (arith, base_bound)))
        (Uint.mul-eq 128 _ _ (omega (arith, base_bound)))

  prod_bound : accumulator * bin_step ≤ (2 ^ 32 - 1) * (2 ^ 16 - 1)
  prod_bound = mul_bound _ _ (2 ^ 32 - 1) (2 ^ 16 - 1) (omega arith) (omega arith)

  square_bound :
      accumulator * bin_step * (accumulator * bin_step)
      ≤ (2 ^ 32 - 1) * (2 ^ 16 - 1) * ((2 ^ 32 - 1) * (2 ^ 16 - 1))
  square_bound =
      mul_bound _ _ ((2 ^ 32 - 1) * (2 ^ 16 - 1)) ((2 ^ 32 - 1) * (2 ^ 16 - 1)) prod_bound
        prod_bound

  cube_bound :
      accumulator * bin_step * (accumulator * bin_step) * control
      ≤ (2 ^ 32 - 1) * (2 ^ 16 - 1) * ((2 ^ 32 - 1) * (2 ^ 16 - 1)) * (2 ^ 32 - 1)
  cube_bound = mul_bound _ _ _ (2 ^ 32 - 1) square_bound (omega arith)

  get_variable_fee-eq :
      get_variable_fee accumulator bin_step control
      ≡ (accumulator * bin_step * (accumulator * bin_step) * control + 99) / 100
  unfolding get_variable_fee
  get_variable_fee-eq = elim (Bool-cases (control == 0)) [
    | inl e ↦ rw e (rw ((==_iff control 0).0 e) (rw mul-zero))
    | inr e ↦
        rw (e, Uint.mul-eq 128 accumulator bin_step (omega (arith, prod_bound)))
          (rw
            (Uint.mul-eq 128 (accumulator * bin_step) (accumulator * bin_step)
              (omega (arith, square_bound)))
            (rw
              (Uint.mul-eq 128 (accumulator * bin_step * (accumulator * bin_step)) control
                (omega (arith, cube_bound)))
              (rw (
                Uint.add-eq 128 (accumulator * bin_step * (accumulator * bin_step) * control) 99
                  (omega (arith, cube_bound))))))
  ]

  -- For fee parameters of 16 and 32 bits no intermediate result of the fee wraps: it is the formula
  -- of the fee over unbounded numbers, capped.
  pub get_total_fee-exact :
      get_total_fee base_factor bin_step accumulator control
      ≡ exact_total_fee base_factor bin_step accumulator control
  unfolding get_total_fee
  get_total_fee-exact =
      rw (get_base_fee-eq, get_variable_fee-eq)
        (rw (
          Uint.add-eq 128 (base_factor * bin_step * 10_000_000_000)
            ((accumulator * bin_step * (accumulator * bin_step) * control + 99) / 100)
            (omega (arith, base_bound, cube_bound))))

pub get_total_fee-le : (bf bs va vc : ℕ) → get_total_fee bf bs va vc ≤ max_fee
unfolding get_total_fee
get_total_fee-le bf bs va vc = omega arith

module _ (amount fee : ℕ) (small : Fits 128 amount) (capped : fee ≤ max_fee) where
  product_bound : amount * fee ≤ (2 ^ 128 - 1) * max_fee
  product_bound = mul_bound _ _ (2 ^ 128 - 1) max_fee (omega arith) capped

  fee_from-lt : ceil_div (amount * fee) precision < 2 ^ 128
  unfolding ceil_div
  fee_from-lt = omega (arith, product_bound)

  pub get_fee_amount_from-eq :
      get_fee_amount_from amount fee ≡ ok (ceil_div (amount * fee) precision)
  unfolding get_fee_amount_from ceil_div
  get_fee_amount_from-eq = rw (Uint.mul-eq 256 amount fee (omega (arith, product_bound))) (
      rw (Uint.add-eq 256 (amount * fee) (precision - 1) (omega (arith, product_bound)))
        (rw (Uint.to-eq 128 _ fee_from-lt)))

  -- A fee is at most a ninth of the net amount, rounded up.
  pub fee-le : 9 * ceil_div (amount * fee) (precision - fee) ≤ amount + 8
  fee-le = omega (
    arith,
    ceil_div-le ((amount + 8) / 9) (amount * fee) (precision - fee) (omega arith) (
        omega (
          arith,
          mul_bound amount fee (9 * ((amount + 8) / 9)) max_fee (omega arith) capped,
          mul_bound ((amount + 8) / 9) (9 * max_fee) ((amount + 8) / 9) (precision - fee)
              (omega arith) (omega arith),
        )),
  )

  fee-lt : (amount * fee + (precision - fee - 1)) / (precision - fee) < 2 ^ 128
  unfolding ceil_div
  fee-lt = omega (arith, fee-le)

  pub get_fee_amount-eq : get_fee_amount amount fee ≡ ok (ceil_div (amount * fee) (precision - fee))
  unfolding get_fee_amount ceil_div
  get_fee_amount-eq = rw (Uint.sub-eq 128 precision fee (omega arith) (omega arith)) (
      rw (Uint.sub-eq 128 (precision - fee) 1 (omega arith) (omega arith)) (
        rw (Uint.mul-eq 256 amount fee (omega (arith, product_bound))) (
          rw (Uint.add-eq 256 (amount * fee) (precision - fee - 1) (omega (arith, product_bound))) (
            rw (Uint.div-eq _ (precision - fee) (omega arith)) (
              Uint.to-eq 128 ((amount * fee + (precision - fee - 1)) / (precision - fee))
                fee-lt)))))

-- With `d + t` parts to the whole, `t` of them fee: rounding up twice loses nothing.
ceil_fee_round_trip :
    (a t d : ℕ) → 0 < d → ceil_div ((a + ceil_div (a * t) d) * t) (d + t) ≡ ceil_div (a * t) d
ceil_fee_round_trip a t d h =
    ceil_div_unique (ceil_div (a * t) d) _ (d + t) (omega arith)
      (omega (arith, ceil_div_bounds (a * t) d h)) (omega (arith, ceil_div_bounds (a * t) d h))

-- For a fee rate within the cap and a net amount whose sum with amount * rate / (10^18 - rate),
-- rounded up, fits 128 bits, `get_fee_amount` succeeds, and `get_fee_amount_from` finds the same
-- fee in the gross amount.
pub fee_round_trip :
    (amount fee : ℕ)
    → fee ≤ max_fee
    → amount + ceil_div (amount * fee) (precision - fee) < 2 ^ 128
    → (charged : ℕ) × (get_fee_amount amount fee ≡ ok charged)
      × (get_fee_amount_from (amount + charged) fee ≡ ok charged)
fee_round_trip amount fee capped small = (
  charged,
  get_fee_amount-eq amount fee (omega arith) capped,
  get_fee_amount_from-eq (amount + charged) fee small capped ∙ ap ok again,
)
  where
    charged : ℕ
    charged = ceil_div (amount * fee) (precision - fee)

    whole : precision - fee + fee ≡ precision
    whole = omega arith

    again : ceil_div ((amount + charged) * fee) precision ≡ charged
    again =
        subst (λ p. ceil_div ((amount + charged) * fee) p ≡ charged) whole
          (ceil_fee_round_trip amount fee (precision - fee) (omega arith))
