-- ===== src/Lb/Events/Clock.antt =====
-- The volatility references under a run of Swap logs of one block.
use evm_dex_pool.Base.{ℕ, ◌<◌, ◌≡◌, refl, ◌∙◌, List, [], ◌∷◌, arith}
use evm_dex_pool.Lb.Pool.{LbPool, update_references}
use evm_dex_pool.Lb.Pool.Volatility.{update_references_within}
use evm_dex_pool.Lb.Events.Arms.{SwapData, swap}

abbrev pub references : LbPool → ℕ × ℕ
references p = (p.volatility_reference, p.id_reference)

-- The logs of one transaction share the time of their block.
pub swaps : LbPool → List SwapData → ℕ → ℕ → LbPool
swaps p [] ts now = p
swaps p (d ∷ ds) ts now = swaps (swap p d ts now).0 ds ts now

-- A pool last updated at `ts` keeps its references through any swaps at `ts`.
references-swaps :
    (p : LbPool) (ds : List SwapData) (ts now : ℕ)
    → 0 < p.filter_period
    → p.time_of_last_update ≡ ts
    → references (swaps p ds ts now) ≡ references p
unfolding swaps swap
references-swaps p [] ts now f t = refl
references-swaps p (d ∷ ds) ts now f t =
    references-swaps (swap p d ts now).0 ds ts now f refl
    ∙ update_references_within p ts f (omega arith)

-- One on-chain swap emits a log for each bin it crosses. Where the filter period is positive,
-- replaying one or more of them at one time leaves the references that the pool before the first of
-- them gives at that time.
pub swaps-references :
    (p : LbPool) (d : SwapData) (ds : List SwapData) (ts now : ℕ)
    → 0 < p.filter_period
    → references (swaps p (d ∷ ds) ts now) ≡ update_references p ts
unfolding swaps swap
swaps-references p d ds ts now f = references-swaps (swap p d ts now).0 ds ts now f refl
