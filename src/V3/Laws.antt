-- ===== src/V3/Laws.antt =====
-- Liquidity deltas and rounding division of src/v3.
use evm_dex_pool.Base.{
  ℕ, zero, suc, ◌+◌, ◌*◌, ◌/◌, ◌%◌, ◌≤◌, ◌<◌, ◌≡◌, inl, inr, ◌==◌, ok, arith, ap, sym, Bool-cases,
}
use evm_dex_pool.Base.Division.{ceil_div, ceil_div_unique, mul_bound}
use native.Mathlib.Nat.{div-add-mod, mod-lt}
use evm_dex_pool.Base.Int.{ℤ, pos, negsuc, negated}
use evm_dex_pool.Uint
use evm_dex_pool.Uint.{Fits}
use evm_dex_pool.V3.{add_delta, div_rounding_up}

-- Where a signed delta is added to a 128-bit liquidity without an error, adding the negated delta
-- to the result gives the liquidity back.
pub add_delta-negated :
    (x : ℕ) (y : ℤ) (z : ℕ) → Fits 128 x → add_delta x y ≡ ok z → add_delta z (negated y) ≡ ok x
unfolding add_delta Uint.checked_add Uint.checked_sub
add_delta-negated x (pos zero) z fits h = ground arith
add_delta-negated x (pos (suc n)) z fits h = ground arith
add_delta-negated x (negsuc n) z fits h = ground arith

parts : (a b : ℕ) → 0 < b → (a / b * b + a % b ≡ a) × (a % b < b)
parts a b h = (omega (arith, div-add-mod a b), mod-lt a h)

-- The division of a `U256` by a positive number is the quotient rounded up, and the increment does
-- not wrap.
pub div_rounding_up-eq : (a b : ℕ) → Fits 256 a → 0 < b → div_rounding_up a b ≡ ok (ceil_div a b)
unfolding div_rounding_up
div_rounding_up-eq a b fits h =
    let (whole, rest) = parts a b h in
    let below : a / b ≤ a / b * b = omega (arith, mul_bound (a / b) 1 (a / b) b (omega arith) h) in
    rw (Uint.div-eq a b h) (elim (Bool-cases (a % b == 0)) [
      | inl z ↦ rw z (
          ap ok
            (sym (ceil_div_unique (a / b) a b h (ground (arith, whole)) (omega (arith, whole)))))
      | inr r ↦
          rw (r, Uint.add-eq 256 (a / b) 1 (ground (arith, whole, below)))
            (ap ok (
              sym
                (ceil_div_unique (a / b + 1) a b h (grind (arith, whole)) (ground (arith, whole)))))
    ])
