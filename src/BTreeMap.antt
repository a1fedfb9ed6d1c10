-- ===== src/BTreeMap.antt =====
-- The standard library's `BTreeMap` at keys that are numbers: an association list in ascending
-- order of the keys, with the operations and range queries that the crate calls.
pub mod Lookup
pub mod Order
pub mod Range
pub mod Total
use evm_dex_pool.Base.{
  ℕ, ◌+◌, ◌≤◌, ◌<◌, Bool, true, false, ltb, leb, ◌==◌, if◌then◌else◌, List, [], ◌∷◌, Option, none,
  some,
}

abbrev pub BTreeMap {ℓ} : Type ℓ → Type ℓ
BTreeMap V = List (ℕ × V)

module _ {ℓ} {V : Type ℓ} where
  unfoldable pub get : ℕ → BTreeMap V → Option V
  get k [] = none
  get k ((j, w) ∷ m) = if k == j then some w else get k m

  unfoldable pub insert : ℕ → V → BTreeMap V → BTreeMap V
  insert k v [] = (k, v) ∷ []
  insert k v ((j, w) ∷ m) =
      if ltb k j then (k, v) ∷ (j, w) ∷ m else if k == j then (k, v) ∷ m else (j, w) ∷ insert k v m

  unfoldable pub remove : ℕ → BTreeMap V → BTreeMap V
  remove k [] = []
  remove k ((j, w) ∷ m) = if k == j then m else (j, w) ∷ remove k m

  -- `range(..k).next_back()`
  unfoldable pub last_below : ℕ → BTreeMap V → Option (ℕ × V)
  last_below k [] = none
  last_below k ((j, w) ∷ m) =
      let rest = last_below k m in
      if ltb j k then elim rest [ none ↦ some (j, w) | some e ↦ some e ] else none

  -- `range(k..).next()`
  unfoldable pub first_from : ℕ → BTreeMap V → Option (ℕ × V)
  first_from k [] = none
  first_from k ((j, w) ∷ m) = if leb k j then some (j, w) else first_from k m

  -- `keys().next_back()`
  unfoldable pub last_key : BTreeMap V → Option ℕ
  last_key [] = none
  last_key ((j, w) ∷ m) = let rest = last_key m in elim rest [ none ↦ some j | some k ↦ some k ]

  -- Every entry satisfies `P`.
  abbrev pub Every {κ} : (ℕ → V → Type κ) → BTreeMap V → Type κ
  Every P [] = Unit
  Every P ((k, v) ∷ m) = P k v × Every P m

  abbrev pub IsSorted : BTreeMap V → Type 0
  IsSorted [] = Unit
  IsSorted ((k, v) ∷ m) = Every (λ j _. k < j) m × IsSorted m
