-- ===== src/BlockSource/Batches/Tiles.antt =====
-- The ranges of src/collector/block_source.rs against what they are for: every block once.
use evm_dex_pool.Base.{
  ℕ, zero, suc, ◌+◌, ◌-◌, ◌^◌, ◌≤◌, ◌<◌, min, max, ltb, leb, ◌&&◌, if◌then◌else◌, List, [], ◌∷◌,
  ◌≡◌, refl, arith, Returns, Bool-cases, inl, inr, leb→le, leb-false→lt,
}
use evm_dex_pool.Uint
use evm_dex_pool.BlockSource.Batches.{catchup_end, catchup_loop, catchup_batches}

-- The ranges follow each other without a gap, from the first block to the last, and none holds
-- more than `span` blocks.
pub data Tiles (span : ℕ) : ℕ → ℕ → List (ℕ × ℕ) → Type 0 where
  done : (from to : ℕ) → to < from → Tiles span from to []
  tile :
      (from end to : ℕ) (rest : List (ℕ × ℕ))
      → from ≤ end
      → end ≤ to
      → end < from + span
      → Tiles span (suc end) to rest
      → Tiles span from to ((from, end) ∷ rest)

-- The first of the ranges.
abbrev StartsWith : ℕ → ℕ → ℕ → List (ℕ × ℕ) → Type 0
StartsWith span from to [] = Unit
StartsWith span from to ((first, end) ∷ rest) =
    (first ≡ from) × (from ≤ end) × (end ≤ to) × (end < from + span) × Tiles span (suc end) to rest

pub Tiles-StartsWith :
    (span : ℕ) {from to : ℕ} {ranges : List (ℕ × ℕ)}
    → Tiles span from to ranges
    → StartsWith span from to ranges
Tiles-StartsWith span (done from to h) = tt
Tiles-StartsWith span (tile from end to rest a b c t) = (refl, a, b, c, t)

-- How many of the ranges hold the block.
abbrev pub fetches : ℕ → List (ℕ × ℕ) → ℕ
fetches block [] = 0
fetches block ((from, to) ∷ rest) =
    (if leb from block && leb block to then 1 else 0) + fetches block rest

-- No range is empty or longer than `span`.
abbrev pub AreShort : ℕ → List (ℕ × ℕ) → Type 0
AreShort span [] = Unit
AreShort span ((from, to) ∷ rest) = (from ≤ to) × (to < from + span) × AreShort span rest

pub Tiles-fetches :
    (span block : ℕ) {from to : ℕ} {ranges : List (ℕ × ℕ)}
    → Tiles span from to ranges
    → fetches block ranges ≡ (if leb from block && leb block to then 1 else 0)
Tiles-fetches span block (done from to h) = ground arith
Tiles-fetches span block (tile from end to rest a b c t) =
    ground (arith, Tiles-fetches span block t)

pub Tiles-AreShort :
    (span : ℕ) {from to : ℕ} {ranges : List (ℕ × ℕ)}
    → Tiles span from to ranges
    → AreShort span ranges
Tiles-AreShort span (done from to h) = tt
Tiles-AreShort span (tile from end to rest a b c t) = (a, c, Tiles-AreShort span t)

pub after : (block last : ℕ) → block < last → last < 2 ^ 64 → Uint.add 64 block 1 ≡ suc block
after block last lt fits = rw (Uint.add-eq 64 block 1 (omega arith)) (omega arith)

catchup_end_bounds :
    (span first start : ℕ)
    → 0 < span
    → span < 2 ^ 64
    → first < 2 ^ 64
    → start ≤ first
    → (start ≤ catchup_end span first start)
      × (catchup_end span first start ≤ first)
      × (catchup_end span first start < start + span)
unfolding catchup_end Uint.saturating_add
catchup_end_bounds span first start pos fs ff le =
    rw (Uint.sub-eq 64 span 1 (omega arith) fs) (omega arith)

-- With fuel for the blocks that are left, the loop returns.
catchup_loop-Tiles :
    (fuel span first start : ℕ)
    → 0 < span
    → span < 2 ^ 64
    → first < 2 ^ 64
    → 0 < fuel
    → first < start + fuel
    → Returns (catchup_loop fuel span first start) (Tiles span start first)
unfolding catchup_loop
catchup_loop-Tiles zero span first start pos fs ff some_fuel enough = absurd (omega arith)
catchup_loop-Tiles (suc fuel) span first start pos fs ff some_fuel enough =
    elim (Bool-cases (leb start first)) [
      | inr past ↦
          rw (past, catchup_loop) ([], refl, done start first (leb-false→lt start first past))
      | inl more ↦
          let bounds = catchup_end_bounds span first start pos fs ff (leb→le start first more) in
          rw (more, catchup_loop)
            (elim (Bool-cases (leb first (catchup_end span first start))) [
              | inl last ↦ rw last (
                (start, catchup_end span first start) ∷ [],
                refl,
                tile start (catchup_end span first start) first [] bounds.0 bounds.1 bounds.2 (
                    done (suc (catchup_end span first start)) first
                      (omega (arith, leb→le _ _ last))),
              )
              | inr short ↦
                  let (rest, e, t) =
                    catchup_loop-Tiles fuel span first (suc (catchup_end span first start)) pos fs
                      ff (omega (arith, bounds, leb-false→lt _ _ short)) (omega (arith, bounds)) in
                  rw
                    (
                      short,
                      after (catchup_end span first start) first (leb-false→lt _ _ short) ff,
                      e,
                    )
                    (
                      (start, catchup_end span first start) ∷ rest,
                      refl,
                      tile start (catchup_end span first start) first rest bounds.0 bounds.1
                          bounds.2 t,
                    )
            ])
    ]

-- For a cursor below the last `u64` and `u64` arguments, the loop of the catch-up ends. Its ranges
-- hold each block after the cursor, up to the block of the first event, exactly once and no other
-- block, and none of them is empty or longer than the configured number, or than one where that is
-- zero.
pub catchup_batches-once :
    (last max_blocks first : ℕ)
    → last + 1 < 2 ^ 64
    → max_blocks < 2 ^ 64
    → first < 2 ^ 64
    → Returns (catchup_batches last max_blocks first) (λ ranges.
      ((block : ℕ) → fetches block ranges ≡ (if ltb last block && leb block first then 1 else 0))
      × AreShort (max max_blocks 1) ranges)
unfolding catchup_batches Uint.saturating_add
catchup_batches-once last max_blocks first lf mf ff =
    let (ranges, e, t) =
      catchup_loop-Tiles (suc first) (max max_blocks 1) first (min (last + 1) (2 ^ 64 - 1))
        (omega arith) (omega arith) ff (omega arith) (omega arith) in
    (
      ranges,
      e,
      (
        (λ block. ground (arith, Tiles-fetches (max max_blocks 1) block t)),
        Tiles-AreShort (max max_blocks 1) t,
      ),
    )
