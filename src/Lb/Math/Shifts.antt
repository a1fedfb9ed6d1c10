-- ===== src/Lb/Math/Shifts.antt =====
-- The rounding shifts of src/lb/math.rs at the shift of 128 that the swaps use.
use native.Mathlib.Nat.{div-add-mod}
use evm_dex_pool.Base.{
  ℕ, ◌+◌, ◌-◌, ◌*◌, ◌/◌, ◌%◌, ◌^◌, ◌≤◌, ◌<◌, ◌≡◌, ltb, if◌then◌else◌, arith, sym, ltb→lt,
  ltb-false→le, pos→not_zero, Bool-cases, inl, inr,
}
use evm_dex_pool.Base.Division.{mul_bound, ceil_div, ceil_div_unique, div_bounds, div-lt}
use evm_dex_pool.Uint
use evm_dex_pool.Uint.{Fits}
use evm_dex_pool.Lb.Math.{
  mul_shift_round_down, mul_shift_round_up, shift_div_round_down, shift_div_round_up,
}

-- The remainder test of the rounding-up functions.
round_up : (n d : ℕ) → 0 < d → (if ltb 0 (n % d) then n / d + 1 else n / d) ≡ ceil_div n d
round_up n d h = elim (Bool-cases (ltb 0 (n % d))) [
  | inl e ↦ rw e (
      sym (
        ceil_div_unique (n / d + 1) n d h (omega (arith, div_bounds n d h))
          (omega (arith, ltb→lt 0 (n % d) e, div-add-mod n d))))
  | inr e ↦ rw e (
      sym (
        ceil_div_unique (n / d) n d h (omega (arith, ltb-false→le 0 (n % d) e, div-add-mod n d))
          (omega (arith, div_bounds n d h))))
]

module _ (x y : ℕ) (small : Fits 128 x) (word : Fits 256 y) where
  product : x * y ≤ (2 ^ 128 - 1) * (2 ^ 256 - 1)
  product = mul_bound x y (2 ^ 128 - 1) (2 ^ 256 - 1) (omega arith) (omega arith)

  pub mul_shift_round_down-eq : mul_shift_round_down x y 128 ≡ x * y / 2 ^ 128
  unfolding mul_shift_round_down
  mul_shift_round_down-eq = omega (arith, product)

  pub mul_shift_round_up-eq : mul_shift_round_up x y 128 ≡ ceil_div (x * y) (2 ^ 128)
  unfolding mul_shift_round_up
  mul_shift_round_up-eq =
      rw (mul_shift_round_down-eq, Uint.add-eq 256 (x * y / 2 ^ 128) 1 (omega (arith, product)))
        (round_up (x * y) (2 ^ 128) (omega arith))

module _ (x d : ℕ) (small : Fits 128 x) (positive : 0 < d) where
  shifted : Uint.shl 512 x 128 ≡ x * 2 ^ 128
  unfolding Uint.shl
  shifted = omega arith

  quotient : x * 2 ^ 128 / d < 2 ^ 256 - 1
  quotient = div-lt (2 ^ 256 - 1) (x * 2 ^ 128) d positive (omega arith)

  pub shift_div_round_down-eq : shift_div_round_down x 128 d ≡ x * 2 ^ 128 / d
  unfolding shift_div_round_down
  shift_div_round_down-eq = rw (pos→not_zero d positive, shifted) (omega (arith, quotient))

  pub shift_div_round_up-eq : shift_div_round_up x 128 d ≡ ceil_div (x * 2 ^ 128) d
  unfolding shift_div_round_up
  shift_div_round_up-eq =
      rw
        (
          pos→not_zero d positive,
          shifted,
          shift_div_round_down-eq,
          Uint.add-eq 256 (x * 2 ^ 128 / d) 1 (omega (arith, quotient)),
        )
        (round_up (x * 2 ^ 128) d positive)
