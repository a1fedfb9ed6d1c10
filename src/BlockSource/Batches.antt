-- ===== src/BlockSource/Batches.antt =====
-- The ranges of blocks that src/collector/block_source.rs fetches: `catchup_batches`, and the loop
-- of `LatestBlockSource::next_batch` that computes its batches.
pub mod Tiles
pub mod Latest
use evm_dex_pool.Base.{
  ℕ, zero, suc, ◌+◌, min, max, Bool, true, false, ltb, leb, ◌==◌, if◌then◌else◌, ◌&&◌, List, [],
  ◌∷◌, Outcome, ok, out_of_fuel, ◌>>=◌,
}
use evm_dex_pool.Uint

-- The last block of the batch that starts at `start`.
unfoldable pub catchup_end : ℕ → ℕ → ℕ → ℕ
catchup_end span first_event_block start =
    min (Uint.saturating_add 64 start (Uint.sub 64 span 1)) first_event_block

-- The `while` of `catchup_batches`, with its `break` at the last block.
unfoldable pub catchup_loop : ℕ → ℕ → ℕ → ℕ → Outcome (List (ℕ × ℕ))
catchup_loop zero span first_event_block start = out_of_fuel
catchup_loop (suc fuel) span first_event_block start = elim (leb start first_event_block) [
  | false ↦ ok []
  | true ↦
      let end = catchup_end span first_event_block start in
      elim (leb first_event_block end) [
        | true ↦ ok ((start, end) ∷ [])
        | false ↦ catchup_loop fuel span first_event_block (Uint.add 64 end 1) >>= λ rest.
            ok ((start, end) ∷ rest)
      ]
]

unfoldable pub catchup_batches : ℕ → ℕ → ℕ → Outcome (List (ℕ × ℕ))
unfolding catchup_loop
catchup_batches last_processed_block max_blocks_per_batch first_event_block =
    catchup_loop (suc first_event_block) (max max_blocks_per_batch 1) first_event_block
      (Uint.saturating_add 64 last_processed_block 1)

-- The last block of the batch that starts at `current`, in both of the polling sources.
unfoldable pub batch_end : ℕ → ℕ → ℕ → ℕ
batch_end max_blocks_per_batch latest_block current =
    min (Uint.sub 64 (Uint.add 64 current max_blocks_per_batch) 1) latest_block

-- `while current <= latest_block`: the ranges, each with its `is_latest_single`.
unfoldable pub latest_loop : ℕ → ℕ → ℕ → ℕ → Outcome (List (ℕ × ℕ × Bool))
latest_loop zero max_blocks_per_batch latest_block current = out_of_fuel
latest_loop (suc fuel) max_blocks_per_batch latest_block current = elim (leb current latest_block) [
  | false ↦ ok []
  | true ↦
      let end = batch_end max_blocks_per_batch latest_block current in
      let is_latest_single = (end == latest_block) && (current == end) in
      latest_loop fuel max_blocks_per_batch latest_block (Uint.add 64 end 1) >>= λ rest.
      ok ((current, end, is_latest_single) ∷ rest)
]

-- The batches for the blocks from `next_block` on.
unfoldable pub latest_batches : ℕ → ℕ → ℕ → Outcome (List (ℕ × ℕ × Bool))
unfolding latest_loop
latest_batches max_blocks_per_batch latest_block next_block =
    latest_loop (suc (suc latest_block)) max_blocks_per_batch latest_block next_block
