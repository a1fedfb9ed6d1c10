-- ===== src/Base/Int.antt =====
-- Signed integers over the native numbers.
use Prim.Native.Nat.{ℕ, zero, suc, ◌+◌, ◌-◌, ◌*◌, ◌^◌, min}
use mathlib.Core.Bool.{Bool, true, false}
use evm_dex_pool.Base.Tests.{ltb, leb, ◌==◌, if◌then◌else◌}

-- `negsuc n` is -(n + 1).
pub data ℤ : Type 0 where
  pos : ℕ → ℤ
  negsuc : ℕ → ℤ

abbrev pos_part : ℤ → ℕ
pos_part (pos n) = n
pos_part (negsuc n) = 0

abbrev neg_part : ℤ → ℕ
neg_part (pos n) = 0
neg_part (negsuc n) = suc n

abbrev pub unsigned_abs : ℤ → ℕ
unsigned_abs (pos n) = n
unsigned_abs (negsuc n) = suc n

abbrev pub is_negative : ℤ → Bool
is_negative (pos n) = false
is_negative (negsuc n) = true

-- The integer that a pattern of `w` bits stands for.
abbrev pub signed : ℕ → ℕ → ℤ
signed w a = if ltb (2 * a) (2 ^ w) then pos a else negsuc (2 ^ w - a - 1)

abbrev pub negated : ℤ → ℤ
negated (pos zero) = pos zero
negated (pos (suc n)) = negsuc n
negated (negsuc n) = pos (suc n)

abbrev minus : ℕ → ℕ → ℤ
minus a b = if leb b a then pos (a - b) else negsuc (b - a - 1)

infixl 6 ◌+ℤ◌
abbrev pub ◌+ℤ◌ : ℤ → ℤ → ℤ
pos a +ℤ pos b = pos (a + b)
pos a +ℤ negsuc b = minus a (suc b)
negsuc a +ℤ pos b = minus b (suc a)
negsuc a +ℤ negsuc b = negsuc (suc (a + b))

-- The nearest integer of `w` bits.
abbrev clamp : ℕ → ℤ → ℤ
clamp w (pos n) = pos (min n (2 ^ (w - 1) - 1))
clamp w (negsuc n) = negsuc (min n (2 ^ (w - 1) - 1))

abbrev pub saturating_add : ℕ → ℤ → ℤ → ℤ
saturating_add w x y = clamp w (x +ℤ y)

abbrev pub saturating_sub : ℕ → ℤ → ℤ → ℤ
saturating_sub w x y = clamp w (x +ℤ negated y)

-- The negation of `w` bits, which leaves the least integer as it is.
abbrev pub wrapping_neg : ℕ → ℤ → ℤ
wrapping_neg w (pos n) = negated (pos n)
wrapping_neg w (negsuc n) = if suc n == 2 ^ (w - 1) then negsuc n else pos (suc n)
