-- ===== src/Lb/Swap/Walk.antt =====
-- The rule for the walk over the bins, and that it ends.
use evm_dex_pool.Base.{
  ℕ, zero, suc, ◌<◌, ◌≡◌, ◌⊎◌, inl, inr, Bool, true, false, Option, none, some, Outcome, Returns,
  arith, Bool-cases, Option-cases,
}
use evm_dex_pool.Lb.Swap.{walk_bins}

module _ {ℓ κ} {S : Type ℓ} (visit : ℕ → S → Outcome S) (done : S → Bool)
    (next : ℕ → Option ℕ) where
  -- `P` holds before a bin is visited, `Q` after it. Where every visit succeeds and the measure
  -- of the bins falls, the walk returns, at a bin with no successor or with `done` set.
  pub walk_bins_rule :
      (P Q : ℕ → S → Type κ) (measure : ℕ → ℕ)
      → ((id : ℕ) (s : S) → P id s → Returns (visit id s) (Q id))
      → ((id id' : ℕ) (s : S)
          → Q id s
          → done s ≡ false
          → next id ≡ some id'
          → P id' s × (measure id' < measure id))
      → (fuel id : ℕ) (s : S) → measure id < fuel
      → P id s
      → Returns
          (walk_bins fuel visit done next id s)
          (λ r. (last : ℕ) × Q last r × ((done r ≡ true) ⊎ (next last ≡ none)))
  unfolding walk_bins
  walk_bins_rule P Q measure visits steps zero id s m p = absurd (omega arith)
  walk_bins_rule P Q measure visits steps (suc fuel) id s m p =
      let (s', e, q) = visits id s p in
      elim (Bool-cases (done s')) [
        | inl stop ↦ (s', rw (e, stop), (id, q, inl stop))
        | inr more ↦ elim (Option-cases (next id)) [
          | inl end ↦ (s', rw (e, more, end), (id, q, inr end))
          | inr (id', at) ↦
              let (p', falls) = steps id id' s' q more at in
              let (r, returns, at_end) =
                walk_bins_rule P Q measure visits steps fuel id' s' (omega arith) p' in
              (r, rw (e, more, at) returns, at_end)
        ]
      ]
