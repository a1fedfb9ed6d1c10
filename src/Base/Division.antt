-- ===== src/Base/Division.antt =====
-- Rounding division: `/` rounds down, `ceil_div` up. Both are determined by two inequalities.
use Prim.Native.Nat.{ℕ, suc, ◌+◌, ◌-◌, ◌*◌, ◌/◌, ◌≤◌, ◌<◌}
use mathlib.Core.Path.{◌≡◌}
use native.Mathlib.Omega.{arith}
use native.Mathlib.Decide.{dec_le}
use native.Mathlib.Nat.{
  le-div_iff_mul-le, div-lt_iff_lt-mul, div-mul-le_self, lt-div-mul-add, le_antisymm, mul-le-mul,
}

-- `(n + d - 1) / d`, the quotient rounded up.
unfoldable pub ceil_div : ℕ → ℕ → ℕ
ceil_div n d = (n + (d - 1)) / d

pub mul_bound : (a b m n : ℕ) → a ≤ m → b ≤ n → a * b ≤ m * n
mul_bound a b m n h k = mul-le-mul h k

pub mul-cancel : (a b g : ℕ) → 0 < g → a * g ≤ b * g → a ≤ b
mul-cancel a b g h p = elim (dec_le a b) [
  | yes q ↦ q
  | no n ↦ absurd (omega (arith, mul_bound (suc b) g a g (omega arith) (omega arith)))
]

pub div_bounds : (n d : ℕ) → 0 < d → (n / d * d ≤ n) × (n < n / d * d + d)
div_bounds n d h = (div-mul-le_self n d, lt-div-mul-add h)

pub ceil_div_bounds : (n d : ℕ) → 0 < d → (n ≤ ceil_div n d * d) × (ceil_div n d * d < n + d)
unfolding ceil_div
ceil_div_bounds n d h =
    omega (arith, div-mul-le_self (n + (d - 1)) d, lt-div-mul-add {a = n + (d - 1)} h)

pub le-div : (q n d : ℕ) → 0 < d → q * d ≤ n → q ≤ n / d
le-div q n d h p = (le-div_iff_mul-le h).1 p

pub div-lt : (q n d : ℕ) → 0 < d → n < q * d → n / d < q
div-lt q n d h p = (div-lt_iff_lt-mul h).1 p

pub ceil_div-le : (q n d : ℕ) → 0 < d → n ≤ q * d → ceil_div n d ≤ q
unfolding ceil_div
ceil_div-le q n d h p =
    let l : (n + (d - 1)) / d < suc q = div-lt (suc q) (n + (d - 1)) d h (omega arith) in
    omega arith

pub lt-ceil_div : (q n d : ℕ) → 0 < d → q * d < n → q < ceil_div n d
unfolding ceil_div
lt-ceil_div q n d h p = le-div (suc q) (n + (d - 1)) d h (omega arith)

pub ceil_div_unique : (q n d : ℕ) → 0 < d → n ≤ q * d → q * d < n + d → ceil_div n d ≡ q
ceil_div_unique q n d h lo hi =
    le_antisymm (ceil_div-le q n d h lo) (grind (arith, ceil_div_bounds n d h))

pub ceil_div_mono : (n m d : ℕ) → 0 < d → n ≤ m → ceil_div n d ≤ ceil_div m d
ceil_div_mono n m d h p = ceil_div-le _ n d h (omega (arith, ceil_div_bounds m d h))
