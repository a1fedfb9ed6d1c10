-- ===== src/Updater/Contract.antt =====
-- What src/collector/unified_pool_updater.rs relies on of a block source, as an interface of laws
-- that each source can fill, and the abstract view of a run.
use evm_dex_pool.Base.{
  ℕ, suc, ◌+◌, ◌^◌, ◌≤◌, ◌<◌, List, [], ◌∷◌, ◌++◌, All, ◌≡◌, ◌⊎◌, Option, none, some, Returns,
}
use evm_dex_pool.BTreeMap.{BTreeMap}
use evm_dex_pool.Chain.{Log}
use evm_dex_pool.Registry.{PoolRegistry}
use evm_dex_pool.Timestamps.{enrich_if_lb_pools_present, set_time}
use evm_dex_pool.Timestamps.Laws.{enrich-All}
use evm_dex_pool.Processor.Groups.{IsMined}
use evm_dex_pool.BlockSource.{
  EventBatch, ProcessingMode, apply_only, confirmed_with_swaps, pending, Answers, BlockSource,
}

-- The node's blocks stay clear of the end of the integers, and its logs are mined.
pub record IsSound (max_blocks : ℕ) (a : Answers) : Type 0 where
  pub fits : a.latest_block + max_blocks < 2 ^ 64
  pub mined : (from to : ℕ) → All IsMined (a.logs from to)
  pub pending_mined : All IsMined a.pending_logs

-- A turn, at a cursor: it waits, or hands on the pending block, or the next blocks.
pub data IsTurn {S : Type 0} (max_blocks cursor : ℕ) (a : Answers) (Inv : ℕ → S → Type 0)
    : S × Option EventBatch → Type 0 where
  waits : (s : S) → Inv cursor s → IsTurn max_blocks cursor a Inv (s, none)
  speculates :
      (s : S) (events : List Log)
      → Inv cursor s
      → All IsMined events
      → IsTurn max_blocks cursor a Inv (
        s,
        some
            (record { events = events; processing_mode = pending; processed_through_block = none }),
      )
  confirms :
      (s : S) (end : ℕ) (mode : ProcessingMode) (lb : List ℕ) (known : BTreeMap ℕ)
      → Inv end s
      → cursor < end
      → end ≤ cursor + max_blocks
      → end + 1 < 2 ^ 64
      → (mode ≡ apply_only) ⊎ (mode ≡ confirmed_with_swaps)
      → IsTurn max_blocks cursor a Inv (
        s,
        some (record {
          events = enrich_if_lb_pools_present a.header lb (a.logs (suc cursor) end) known;
          processing_mode = mode;
          processed_through_block = some end;
        }),
      )

-- A source of which every turn is one of these, from the state that it is made in.
pub record IsContiguous {P S : Type 0} (max_blocks : ℕ) (source : BlockSource P S) (fresh : S)
    : Type 1 where
  pub Inv : ℕ → S → Type 0
  pub fresh_at : (cursor : ℕ) → cursor + 1 < 2 ^ 64 → Inv cursor fresh
  pub turn_is :
      (r : PoolRegistry P) (a : Answers) (s : S)
      → IsSound max_blocks a
      → r.last_processed_block + 1 < 2 ^ 64
      → Inv r.last_processed_block s
      → Returns (source.turn r a s) (IsTurn max_blocks r.last_processed_block a Inv)

-- The abstract machine: a cursor, and the logs up to it. A step that is no wait asks for the
-- blocks right after the cursor, for at most as many as are configured, and moves it over them.
pub data Confirmed (max_blocks : ℕ) : ℕ → List Answers → ℕ → List Log → Type 0 where
  finished : (cursor : ℕ) → Confirmed max_blocks cursor [] cursor []
  waited :
      (cursor to : ℕ) (a : Answers) (answers : List Answers) (logs : List Log)
      → Confirmed max_blocks cursor answers to logs
      → Confirmed max_blocks cursor (a ∷ answers) to logs
  moved :
      (cursor end to : ℕ) (a : Answers) (answers : List Answers) (logs : List Log) (lb : List ℕ)
      (known : BTreeMap ℕ)
      → cursor < end
      → end ≤ cursor + max_blocks
      → Confirmed max_blocks end answers to logs
      → Confirmed max_blocks cursor
          (a ∷ answers)
          to
          (enrich_if_lb_pools_present a.header lb (a.logs (suc cursor) end) known ++ logs)

set_time-IsMined : (log : Log) (time : Option ℕ) → IsMined log → IsMined (set_time log time)
unfolding set_time
set_time-IsMined log none h = h
set_time-IsMined log (some t) h = h

pub enrich-AreMined :
    (header : ℕ → Option ℕ) (lb : List ℕ) (logs : List Log) (known : BTreeMap ℕ)
    → All IsMined logs
    → All IsMined (enrich_if_lb_pools_present header lb logs known)
enrich-AreMined = enrich-All IsMined set_time-IsMined
