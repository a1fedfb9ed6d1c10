-- ===== src/Base/Search.antt =====
-- `contains` and `is_empty` of vectors, and lists that hold every number once.
use Prim.Native.Nat.{ℕ}
use mathlib.Core.Path.{◌≡◌, refl}
use mathlib.Core.Bool.{Bool, true, false, ◌||◌}
use mathlib.Core.List.{List, [], ◌∷◌, ◌++◌}
use native.Mathlib.Omega.{arith}
use evm_dex_pool.Base.Tests.{◌==◌}

unfoldable pub contains : ℕ → List ℕ → Bool
contains a [] = false
contains a (b ∷ bs) = (a == b) || contains a bs

unfoldable pub is_empty {ℓ} : {A : Type ℓ} → List A → Bool
is_empty [] = true
is_empty (x ∷ xs) = false

-- No number stands in the list twice.
abbrev pub AreDistinct : List ℕ → Type 0
AreDistinct [] = Unit
AreDistinct (t ∷ ts) = (contains t ts ≡ false) × AreDistinct ts

pub contains-append :
    (t : ℕ) (xs ys : List ℕ) → contains t (xs ++ ys) ≡ (contains t xs || contains t ys)
unfolding contains
contains-append t [] ys = refl
contains-append t (x ∷ xs) ys = ground (arith, contains-append t xs ys)

pub AreDistinct-append :
    (t : ℕ) (xs : List ℕ) → AreDistinct xs → contains t xs ≡ false → AreDistinct (xs ++ (t ∷ []))
unfolding contains
AreDistinct-append t [] d n = (refl, tt)
AreDistinct-append t (x ∷ xs) d n =
    ground (arith, AreDistinct-append t xs d.1, contains-append x xs (t ∷ []))
