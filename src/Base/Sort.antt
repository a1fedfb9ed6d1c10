-- ===== src/Base/Sort.antt =====
-- `sort_by_key`: the stable sort of the standard library, by insertion, for a test of which of two
-- elements has the smaller key. Of two elements with equal keys the first stays first.
use Prim.Native.Nat.{ℕ, ◌+◌}
use mathlib.Core.Path.{◌≡◌, refl}
use mathlib.Core.Logic.{inl, inr}
use mathlib.Core.Bool.{Bool, true, false}
use mathlib.Core.List.{List, [], ◌∷◌, ◌++◌}
use native.Mathlib.Omega.{arith}
use evm_dex_pool.Base.Lists.{All}
use evm_dex_pool.Base.Tests.{if◌then◌else◌, Bool-cases}

-- How many elements pass a test, and those that do.
abbrev pub count {ℓ} : {A : Type ℓ} → (A → Bool) → List A → ℕ
count p [] = 0
count p (x ∷ xs) = (if p x then 1 else 0) + count p xs

abbrev pub keep {ℓ} : {A : Type ℓ} → (A → Bool) → List A → List A
keep p [] = []
keep p (x ∷ xs) = if p x then x ∷ keep p xs else keep p xs

module _ {ℓ} {A : Type ℓ} (before : A → A → Bool) where
  unfoldable pub insert_stable : A → List A → List A
  insert_stable x [] = x ∷ []
  insert_stable x (y ∷ ys) = if before y x then y ∷ insert_stable x ys else x ∷ y ∷ ys

  unfoldable pub sort_stable : List A → List A
  unfolding insert_stable
  sort_stable [] = []
  sort_stable (x ∷ xs) = insert_stable x (sort_stable xs)

  -- No element has a smaller key than the one in front of it.
  abbrev pub IsOrdered : List A → Type 0
  IsOrdered [] = Unit
  IsOrdered (x ∷ []) = Unit
  IsOrdered (x ∷ y ∷ ys) = (before y x ≡ false) × IsOrdered (y ∷ ys)

  insert_stable-IsOrdered :
      ((x y : A) → before x y ≡ true → before y x ≡ false)
      → (x : A) (ys : List A) → IsOrdered ys
      → IsOrdered (insert_stable x ys)
  unfolding insert_stable
  insert_stable-IsOrdered asym x [] s = tt
  insert_stable-IsOrdered asym x (y ∷ []) s = ground (arith, asym y x)
  insert_stable-IsOrdered asym x (y ∷ z ∷ zs) s =
      ground (arith, asym y x, insert_stable-IsOrdered asym x (z ∷ zs) s.1)

  pub sort_stable-IsOrdered :
      ((x y : A) → before x y ≡ true → before y x ≡ false)
      → (xs : List A) → IsOrdered (sort_stable xs)
  unfolding sort_stable
  sort_stable-IsOrdered asym [] = tt
  sort_stable-IsOrdered asym (x ∷ xs) =
      insert_stable-IsOrdered asym x (sort_stable xs) (sort_stable-IsOrdered asym xs)

  insert_stable-All {κ} :
      (P : A → Type κ) (x : A) (ys : List A) → P x → All P ys → All P (insert_stable x ys)
  unfolding insert_stable
  insert_stable-All P x [] h hs = (h, tt)
  insert_stable-All P x (y ∷ ys) h (hy, hs) = elim (Bool-cases (before y x)) [
    | inl e ↦ rw (e, insert_stable) (hy, insert_stable-All P x ys h hs)
    | inr e ↦ rw (e, insert_stable) (h, (hy, hs))
  ]

  pub sort_stable-All {κ} : (P : A → Type κ) (xs : List A) → All P xs → All P (sort_stable xs)
  unfolding sort_stable
  sort_stable-All P [] hs = tt
  sort_stable-All P (x ∷ xs) (h, hs) =
      insert_stable-All P x (sort_stable xs) h (sort_stable-All P xs hs)

  count-insert :
      (p : A → Bool) (x : A) (ys : List A)
      → count p (insert_stable x ys) ≡ (if p x then 1 else 0) + count p ys
  unfolding insert_stable
  count-insert p x [] = refl
  count-insert p x (y ∷ ys) = ground (arith, count-insert p x ys)

  pub count-sort : (p : A → Bool) (xs : List A) → count p (sort_stable xs) ≡ count p xs
  unfolding sort_stable
  count-sort p [] = refl
  count-sort p (x ∷ xs) = ground (arith, count-insert p x (sort_stable xs), count-sort p xs)

  module _ (p : A → Bool) (tied : (x y : A) → p x ≡ true → p y ≡ true → before x y ≡ false) where
    keep-insert :
        (x : A) (ys : List A)
        → keep p (insert_stable x ys) ≡ (if p x then x ∷ keep p ys else keep p ys)
    unfolding insert_stable
    keep-insert x [] = refl
    keep-insert x (y ∷ ys) = ground (arith, keep-insert x ys, tied y x)

    -- Elements with equal keys keep their order.
    keep-sort : (xs : List A) → keep p (sort_stable xs) ≡ keep p xs
    unfolding sort_stable
    keep-sort [] = refl
    keep-sort (x ∷ xs) = ground (arith, keep-insert x (sort_stable xs), keep-sort xs)

pub count-append {ℓ} :
    {A : Type ℓ} → (p : A → Bool) (xs ys : List A) → count p (xs ++ ys) ≡ count p xs + count p ys
count-append p [] ys = omega arith
count-append p (x ∷ xs) ys = omega (arith, count-append p xs ys)
