-- ===== src/Updater/Sources.antt =====
-- The polling sources of src/collector/block_source.rs behind
-- src/collector/unified_pool_updater.rs.
use evm_dex_pool.Base.{
  ℕ, suc, ◌+◌, ◌^◌, ◌≤◌, ◌<◌, Bool, true, false, ltb, List, [], ◌∷◌, All, ◌≡◌, refl, subst, ◌⊎◌,
  inl, inr, some, arith, Returns, Bool-cases, if◌then◌else◌, ltb-false→le, sym,
}
use evm_dex_pool.Base.Search.{is_empty}
use evm_dex_pool.Uint
use evm_dex_pool.Registry.{
  PoolInterface, PoolRegistry, trader_joe_lb, get_addresses_by_type, get_all_addresses,
}
use evm_dex_pool.BlockSource.{Answers, apply_only, confirmed_with_swaps}
use evm_dex_pool.BlockSource.Batches.{batch_end, latest_batches}
use evm_dex_pool.BlockSource.Batches.Tiles.{Tiles, done, Tiles-StartsWith, after}
use evm_dex_pool.BlockSource.Batches.Latest.{
  batch_end_bounds, ranges_of, AreMarked, latest_batches-Tiles,
}
use evm_dex_pool.BlockSource.Polling.{
  new_pending, new_latest, PendingPhase, poll_block_number, fetch_pending, confirmed_batches,
  after_poll, after_batch, pending_turn, pending_source, LatestBlockSource, latest_turn,
  latest_turn_of, latest_source, enriched,
}
use evm_dex_pool.Updater.{started, new, start}
use evm_dex_pool.Updater.Contract.{
  IsSound, IsTurn, waits, speculates, confirms, IsContiguous, enrich-AreMined,
}
use evm_dex_pool.Updater.Caught.{CaughtUp, new-CaughtUp}

next_block : (cursor : ℕ) → cursor + 1 < 2 ^ 64 → Uint.add 64 cursor 1 ≡ suc cursor
next_block cursor room = after cursor (cursor + 1) (omega arith) room

module _ {P : Type 0} (pools : PoolInterface P) (max_blocks : ℕ) (pos : 0 < max_blocks) where
  -- The batches that are left begin right after the cursor.
  abbrev PendingInv : ℕ → PendingPhase → Type 0
  PendingInv cursor poll_block_number = Unit
  PendingInv cursor fetch_pending = Unit
  PendingInv cursor (confirmed_batches current latest) =
      (current ≡ suc cursor) × (current ≤ latest) × (latest + max_blocks < 2 ^ 64)

  poll-PendingInv :
      (cursor next latest : ℕ)
      → next ≡ suc cursor
      → latest + max_blocks < 2 ^ 64
      → PendingInv cursor (after_poll next latest)
  unfolding after_poll
  poll-PendingInv cursor next latest e fits = elim (Bool-cases (ltb latest next)) [
    | inl ahead ↦ rw (ahead, after_poll) tt
    | inr new ↦ rw (new, after_poll) (e, ltb-false→le latest next new, fits)
  ]

  batch-PendingInv :
      (cursor next latest : ℕ)
      → next ≡ suc cursor
      → latest + max_blocks < 2 ^ 64
      → PendingInv cursor (after_batch next latest)
  unfolding after_batch
  batch-PendingInv cursor next latest e fits = elim (Bool-cases (ltb latest next)) [
    | inl ahead ↦ rw (ahead, after_batch) tt
    | inr new ↦ rw (new, after_batch) (e, ltb-false→le latest next new, fits)
  ]

  pending_turn-IsTurn :
      (r : PoolRegistry P) (a : Answers) (s : PendingPhase)
      → IsSound max_blocks a
      → r.last_processed_block + 1 < 2 ^ 64
      → PendingInv r.last_processed_block s
      → Returns
          (pending_turn pools max_blocks r a s)
          (IsTurn max_blocks r.last_processed_block a PendingInv)
  unfolding pending_turn enriched
  pending_turn-IsTurn r a poll_block_number sound room inv = (
    _,
    refl,
    waits _ (
        poll-PendingInv r.last_processed_block _ a.latest_block
          (next_block r.last_processed_block room) sound.fits),
  )
  pending_turn-IsTurn r a fetch_pending sound room inv =
      elim (Bool-cases (is_empty (get_all_addresses r))) [
        | inl no_pools ↦ rw (no_pools, pending_turn) (_, refl, waits poll_block_number tt)
        | inr some_pools ↦
            rw (some_pools, pending_turn)
              (
                _,
                refl,
                speculates poll_block_number _ tt (
                    enrich-AreMined a.header (get_addresses_by_type pools r trader_joe_lb)
                      a.pending_logs [] sound.pending_mined),
              )
      ]
  pending_turn-IsTurn r a (confirmed_batches current latest) sound room (at, le, fits) =
      let end = batch_end max_blocks latest current in
      let bounds = batch_end_bounds max_blocks latest current pos fits le in
      (
        _,
        refl,
        subst
            (λ (from : ℕ). IsTurn max_blocks r.last_processed_block a PendingInv (
              after_batch (Uint.add 64 end 1) latest,
              some (record {
                events = enriched pools r a [] (a.logs from end);
                processing_mode = apply_only;
                processed_through_block = some end;
              }),
            ))
            (sym at)
            (confirms (after_batch (Uint.add 64 end 1) latest) end apply_only
              (get_addresses_by_type pools r trader_joe_lb) []
              (batch-PendingInv end (Uint.add 64 end 1) latest
                (after end (latest + max_blocks) (omega (arith, bounds)) fits) fits)
              (omega (arith, bounds)) (omega (arith, bounds)) (omega (arith, bounds)) (inl refl)),
      )

  pending-IsContiguous : IsContiguous max_blocks (pending_source pools max_blocks) new_pending
  unfolding pending_source
  pending-IsContiguous = record {
    Inv = PendingInv;
    fresh_at = λ cursor room. tt;
    turn_is = pending_turn-IsTurn;
  }

  -- The batches that are left tile the blocks after the cursor.
  abbrev LatestInv : ℕ → LatestBlockSource → Type 0
  LatestInv cursor s =
      (s.max_blocks_per_batch ≡ max_blocks)
      × ((latest : ℕ) × (latest + 1 < 2 ^ 64)
          × Tiles max_blocks (suc cursor) latest (ranges_of s.batches))

  mode_of :
      (single : Bool)
      → ((if single then confirmed_with_swaps else apply_only) ≡ apply_only)
        ⊎ ((if single then confirmed_with_swaps else apply_only) ≡ confirmed_with_swaps)
  mode_of true = inr refl
  mode_of false = inl refl

  latest_turn_of-IsTurn :
      (r : PoolRegistry P) (a : Answers) (s : LatestBlockSource) (batches : List (ℕ × ℕ × Bool))
      → IsSound max_blocks a
      → r.last_processed_block + 1 < 2 ^ 64
      → LatestInv r.last_processed_block s
      → LatestInv r.last_processed_block (record s { batches = batches })
      → Returns
          (latest_turn_of pools r a s batches)
          (IsTurn max_blocks r.last_processed_block a LatestInv)
  unfolding latest_turn_of enriched latest_batches
  latest_turn_of-IsTurn r a s ((from, to, single) ∷ batches) sound room inv (m, (latest, fits, t)) =
      let (at, le, le', lt, rest) = Tiles-StartsWith max_blocks t in
      (
        _,
        refl,
        subst
            (λ (first : ℕ). IsTurn max_blocks r.last_processed_block a LatestInv (
              record s { batches = batches },
              some (record {
                events = enriched pools r a s.known_block_times (a.logs first to);
                processing_mode = if single then confirmed_with_swaps else apply_only;
                processed_through_block = some to;
              }),
            ))
            (sym at)
            (confirms (record s { batches = batches }) to
              (if single then confirmed_with_swaps else apply_only)
              (get_addresses_by_type pools r trader_joe_lb) s.known_block_times
              (m, (latest, fits, rest)) (omega arith) (omega arith) (omega arith) (mode_of single)),
      )
  latest_turn_of-IsTurn r a s [] sound room inv here =
      elim (Bool-cases (ltb a.latest_block (Uint.add 64 r.last_processed_block 1))) [
        | inl ahead ↦ rw (ahead, latest_turn_of) (_, refl, waits _ inv)
        | inr more ↦
            let (batches, e, t) =
              subst
                (λ (k : ℕ).
                  Returns (latest_batches k a.latest_block (Uint.add 64 r.last_processed_block 1))
                    (λ batches.
                      Tiles max_blocks (Uint.add 64 r.last_processed_block 1) a.latest_block
                        (ranges_of batches)
                      × AreMarked a.latest_block batches))
                (sym inv.0)
                (latest_batches-Tiles max_blocks a.latest_block
                  (Uint.add 64 r.last_processed_block 1) pos sound.fits
                  (ltb-false→le a.latest_block _ more)) in
            let tiles =
              subst (λ (k : ℕ). Tiles max_blocks k a.latest_block (ranges_of batches))
                (next_block r.last_processed_block room) t.0 in
            let fits = sound.fits in
            rw (more, latest_turn_of, e)
              (_, refl, waits _ (inv.0, (a.latest_block, omega arith, tiles)))
      ]

  latest_turn-IsTurn :
      (r : PoolRegistry P) (a : Answers) (s : LatestBlockSource)
      → IsSound max_blocks a
      → r.last_processed_block + 1 < 2 ^ 64
      → LatestInv r.last_processed_block s
      → Returns (latest_turn pools r a s) (IsTurn max_blocks r.last_processed_block a LatestInv)
  unfolding latest_turn
  latest_turn-IsTurn r a s sound room inv = latest_turn_of-IsTurn r a s s.batches sound room inv inv

  latest-IsContiguous : IsContiguous max_blocks (latest_source pools) (new_latest max_blocks)
  unfolding latest_source
  latest-IsContiguous = record {
    Inv = LatestInv;
    fresh_at = λ cursor room. (refl, (cursor, room, done (suc cursor) cursor (omega arith)));
    turn_is = latest_turn-IsTurn;
  }

  -- With the pending-block source, a positive number of blocks for a batch, a cursor with room for
  -- another block and answers whose latest blocks stay clear of the end of the integers and whose
  -- logs are mined, the updater goes through any sequence of answers without a panic. It follows a
  -- run of the abstract machine, each of whose moves asks for the blocks right after the cursor,
  -- for at most as many as are configured, and moves the cursor to the last of them; and every pool
  -- has the logs of these answers applied in their order.
  pub pending-CaughtUp :
      (r : PoolRegistry P) (tx : Bool) (start_block : ℕ) (answers : List Answers)
      → All (IsSound max_blocks) answers
      → (started r start_block).last_processed_block + 1 < 2 ^ 64
      → let u = new r new_pending tx start_block in
        Returns
          (start pools (pending_source pools max_blocks) u answers)
          (λ out. CaughtUp pools max_blocks u answers out.0)
  pending-CaughtUp =
      new-CaughtUp pools max_blocks (pending_source pools max_blocks) new_pending
        pending-IsContiguous

  -- With the latest-block source, under the same conditions, the updater goes through any sequence
  -- of answers without a panic, and likewise follows a run of the abstract machine, with the logs
  -- of its moves applied to the pools in their order.
  pub latest-CaughtUp :
      (r : PoolRegistry P) (tx : Bool) (start_block : ℕ) (answers : List Answers)
      → All (IsSound max_blocks) answers
      → (started r start_block).last_processed_block + 1 < 2 ^ 64
      → let u = new r (new_latest max_blocks) tx start_block in
        Returns
          (start pools (latest_source pools) u answers)
          (λ out. CaughtUp pools max_blocks u answers out.0)
  latest-CaughtUp =
      new-CaughtUp pools max_blocks (latest_source pools) (new_latest max_blocks)
        latest-IsContiguous
