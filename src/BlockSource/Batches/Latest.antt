-- ===== src/BlockSource/Batches/Latest.antt =====
-- The batches of `LatestBlockSource`, of src/collector/block_source.rs, and what they cover.
use evm_dex_pool.Base.{
  ℕ, zero, suc, ◌+◌, ◌-◌, ◌^◌, ◌≤◌, ◌<◌, Bool, leb, ◌==◌, ◌&&◌, if◌then◌else◌, List, [], ◌∷◌, ◌≡◌,
  refl, arith, out_of_fuel, Returns, Bool-cases, inl, inr, le→leb, leb→le, leb-false→lt,
}
use evm_dex_pool.Uint
use evm_dex_pool.BlockSource.Batches.{latest_loop, latest_batches, batch_end}
use evm_dex_pool.BlockSource.Batches.Tiles.{
  Tiles, done, tile, fetches, AreShort, Tiles-fetches, Tiles-AreShort, after,
}

pub batch_end_bounds :
    (max_blocks latest current : ℕ)
    → 0 < max_blocks
    → latest + max_blocks < 2 ^ 64
    → current ≤ latest
    → (current ≤ batch_end max_blocks latest current)
      × (batch_end max_blocks latest current ≤ latest)
      × (batch_end max_blocks latest current < current + max_blocks)
unfolding batch_end
batch_end_bounds max_blocks latest current pos fits le =
    rw
      (
        Uint.add-eq 64 current max_blocks (omega arith),
        Uint.sub-eq 64 (current + max_blocks) 1 (omega arith) (omega arith),
      )
      (omega arith)

abbrev pub ranges_of : List (ℕ × ℕ × Bool) → List (ℕ × ℕ)
ranges_of [] = []
ranges_of ((from, to, single) ∷ rest) = (from, to) ∷ ranges_of rest

-- A batch has its swaps priced where it holds the latest block and no other.
abbrev pub AreMarked : ℕ → List (ℕ × ℕ × Bool) → Type 0
AreMarked latest [] = Unit
AreMarked latest ((from, to, single) ∷ rest) = (single ≡ (from == latest)) × AreMarked latest rest

marked :
    (current end latest : ℕ)
    → current ≤ end
    → end ≤ latest
    → ((end == latest) && (current == end)) ≡ (current == latest)
marked current end latest a b = ground arith

latest_loop-Tiles :
    (fuel max_blocks latest current : ℕ)
    → 0 < max_blocks
    → latest + max_blocks < 2 ^ 64
    → current ≤ suc latest
    → suc latest < current + fuel
    → Returns
        (latest_loop fuel max_blocks latest current)
        (λ batches. Tiles max_blocks current latest (ranges_of batches) × AreMarked latest batches)
unfolding latest_loop
latest_loop-Tiles zero max_blocks latest current pos fits near enough = absurd (omega arith)
latest_loop-Tiles (suc fuel) max_blocks latest current pos fits near enough =
    elim (Bool-cases (leb current latest)) [
      | inr past ↦
          rw (past, latest_loop)
            ([], refl, (done current latest (leb-false→lt current latest past), tt))
      | inl more ↦
          let end = batch_end max_blocks latest current in
          let bounds = batch_end_bounds max_blocks latest current pos fits (leb→le _ _ more) in
          let (rest, e, t) =
            latest_loop-Tiles fuel max_blocks latest (suc end) pos fits (omega (arith, bounds))
              (omega (arith, bounds)) in
          rw (more, latest_loop, after end (latest + max_blocks) (omega (arith, bounds)) fits, e)
            (
              (current, end, (end == latest) && (current == end)) ∷ rest,
              refl,
              (
                tile current end latest (ranges_of rest) bounds.0 bounds.1 bounds.2 t.0,
                (marked current end latest bounds.0 bounds.1, t.1),
              ),
            )
    ]

pub latest_batches-Tiles :
    (max_blocks latest next : ℕ)
    → 0 < max_blocks
    → latest + max_blocks < 2 ^ 64
    → next ≤ latest
    → Returns
        (latest_batches max_blocks latest next)
        (λ batches. Tiles max_blocks next latest (ranges_of batches) × AreMarked latest batches)
unfolding latest_batches
latest_batches-Tiles max_blocks latest next pos fits le =
    latest_loop-Tiles (suc (suc latest)) max_blocks latest next pos fits (omega arith) (omega arith)

-- For a positive number of blocks for a batch that the latest block leaves room for, the loop that
-- computes the batches ends. They hold each block from the next to the latest exactly once and no
-- other, none is empty or longer than the configured number, and the batches that are marked for
-- pricing are those that begin with the latest block.
pub latest_batches-once :
    (max_blocks latest next : ℕ)
    → 0 < max_blocks
    → latest + max_blocks < 2 ^ 64
    → next ≤ latest
    → Returns (latest_batches max_blocks latest next) (λ batches.
      ((block : ℕ)
        → fetches block (ranges_of batches) ≡ (if leb next block && leb block latest then 1 else 0))
      × AreShort max_blocks (ranges_of batches)
      × AreMarked latest batches)
latest_batches-once max_blocks latest next pos fits le =
    let (batches, e, t) = latest_batches-Tiles max_blocks latest next pos fits le in
    (
      batches,
      e,
      ((λ block. Tiles-fetches max_blocks block t.0), Tiles-AreShort max_blocks t.0, t.1),
    )

batch_end_before :
    (latest current : ℕ)
    → 0 < current
    → current ≤ latest
    → latest < 2 ^ 64
    → batch_end 0 latest current ≡ current - 1
unfolding batch_end
batch_end_before latest current pos le fits =
    rw
      (
        Uint.add-eq 64 current 0 (omega arith),
        Uint.sub-eq 64 (current + 0) 1 (omega arith) (omega arith),
      )
      (omega arith)

again : (current : ℕ) → 0 < current → current < 2 ^ 64 → Uint.add 64 (current - 1) 1 ≡ current
again current pos fits = rw (Uint.add-eq 64 (current - 1) 1 (omega arith)) (omega arith)

-- With zero blocks for a batch, the loop that computes the batches for blocks from a positive
-- number up to a later `u64` does not end, whatever fuel it is given.
pub latest_loop_endless :
    (fuel latest current : ℕ)
    → 0 < current
    → current ≤ latest
    → latest < 2 ^ 64
    → latest_loop fuel 0 latest current ≡ out_of_fuel
unfolding latest_loop
latest_loop_endless zero latest current pos le fits = refl
latest_loop_endless (suc fuel) latest current pos le fits = rw (
  le→leb current latest le,
  latest_loop,
  batch_end_before latest current pos le fits,
  again current pos (omega arith),
  latest_loop_endless fuel latest current pos le fits,
)
