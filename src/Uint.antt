-- ===== src/Uint.antt =====
-- Unsigned integers of `w` bits: `u128` at 128, alloy's `U256` at 256. Values are plain numbers;
-- the operators wrap, as Rust's do in a release build and as `U256`'s do.
use native.Mathlib.Nat.{mod-eq_of_lt, mod-lt, two-pow-succ}
use evm_dex_pool.Base.{
  ℕ, zero, suc, List, [], ◌∷◌, ◌+◌, ◌-◌, ◌*◌, ◌/◌, ◌%◌, ◌^◌, ◌≤◌, ◌<◌, min, ◌≡◌, arith, ltb, lt→ltb,
  leb, if◌then◌else◌, Option, none, some, Outcome, ok, panic,
}

abbrev pub Fits : ℕ → ℕ → Type 0
Fits w a = a < 2 ^ w

two_pow_pos : (w : ℕ) → 0 < 2 ^ w
two_pow_pos zero = omega arith
two_pow_pos (suc w) = rw two-pow-succ (omega (arith, two_pow_pos w))

unfoldable pub add : ℕ → ℕ → ℕ → ℕ
add w a b = (a + b) % 2 ^ w

unfoldable pub sub : ℕ → ℕ → ℕ → ℕ
sub w a b = (a + 2 ^ w - b) % 2 ^ w

unfoldable pub mul : ℕ → ℕ → ℕ → ℕ
mul w a b = (a * b) % 2 ^ w

-- `a << k`
unfoldable pub shl : ℕ → ℕ → ℕ → ℕ
shl w a k = (a * 2 ^ k) % 2 ^ w

-- `a.pow(n)`
unfoldable pub pow : ℕ → ℕ → ℕ → ℕ
pow w a n = a ^ n % 2 ^ w

unfoldable pub saturating_add : ℕ → ℕ → ℕ → ℕ
saturating_add w a b = min (a + b) (2 ^ w - 1)

unfoldable pub saturating_mul : ℕ → ℕ → ℕ → ℕ
saturating_mul w a b = min (a * b) (2 ^ w - 1)

-- `a / b`, which panics on a zero divisor.
unfoldable pub div : ℕ → ℕ → Outcome ℕ
div a b = if ltb 0 b then ok (a / b) else panic

-- `v.to::<u128>()` at `w` = 128: panics where the value does not fit.
unfoldable pub to : ℕ → ℕ → Outcome ℕ
to w a = if ltb a (2 ^ w) then ok a else panic

-- `v.try_into()`
unfoldable pub try_into : ℕ → ℕ → Option ℕ
try_into w a = if ltb a (2 ^ w) then some a else none

-- `a.checked_add(b)`
unfoldable pub checked_add : ℕ → ℕ → ℕ → Option ℕ
checked_add w a b = if ltb (a + b) (2 ^ w) then some (a + b) else none

-- `a.checked_sub(b)`
unfoldable pub checked_sub : ℕ → ℕ → Option ℕ
checked_sub a b = if leb b a then some (a - b) else none

-- `u128::from_be_bytes`, from an accumulator.
unfoldable pub from_be : ℕ → List ℕ → ℕ
from_be acc [] = acc
from_be acc (b ∷ bs) = from_be (acc * 256 + b) bs

unfoldable pub from_be_bytes : List ℕ → ℕ
unfolding from_be
from_be_bytes bs = from_be 0 bs

-- Opens the operations, for tests that compute.
unfoldable pub ops : ℕ
unfolding add sub mul shl pow saturating_add saturating_mul div to try_into checked_add checked_sub
    from_be_bytes
ops = 0

pub to-eq : (w a : ℕ) → a < 2 ^ w → to w a ≡ ok a
unfolding to
to-eq w a h = rw (lt→ltb _ _ h)

pub div-eq : (a b : ℕ) → 0 < b → div a b ≡ ok (a / b)
unfolding div
div-eq a b h = rw (lt→ltb _ _ h)

pub add-eq : (w a b : ℕ) → a + b < 2 ^ w → add w a b ≡ a + b
unfolding add
add-eq w a b h = mod-eq_of_lt h

pub mul-eq : (w a b : ℕ) → a * b < 2 ^ w → mul w a b ≡ a * b
unfolding mul
mul-eq w a b h = mod-eq_of_lt h

pub sub-eq : (w a b : ℕ) → b ≤ a → a < 2 ^ w → sub w a b ≡ a - b
unfolding sub
sub-eq w a b h k = grind arith

add-Fits : (w a b : ℕ) → Fits w (add w a b)
unfolding add
add-Fits w a b = mod-lt (a + b) (two_pow_pos w)

pub saturating_mul-eq : (w a b : ℕ) → a * b < 2 ^ w → saturating_mul w a b ≡ a * b
unfolding saturating_mul
saturating_mul-eq w a b h = omega arith

pub checked_add-Fits : (w a b c : ℕ) → checked_add w a b ≡ some c → Fits w c
unfolding checked_add
checked_add-Fits w a b c h = ground arith

pub try_into-Fits : (w a c : ℕ) → try_into w a ≡ some c → Fits w c
unfolding try_into
try_into-Fits w a c h = ground arith
