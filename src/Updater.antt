-- ===== src/Updater.antt =====
-- `UnifiedPoolUpdater` of src/collector/unified_pool_updater.rs: a block source composed with the
-- event processor and the registry. The fee reader, which reads in the background, and the signal
-- that stops the loop are left out.
pub mod Contract
pub mod Caught
pub mod Sources
use evm_dex_pool.Base.{
  ℕ, Bool, true, false, ltb, ◌==◌, ◌&&◌, if◌then◌else◌, List, [], ◌∷◌, ◌++◌, Option, none, some,
  Outcome, ok, ◌>>=◌,
}
use evm_dex_pool.Chain.{Log}
use evm_dex_pool.Registry.{PoolInterface, PoolRegistry, set_last_processed_block}
use evm_dex_pool.Processor.{
  EventProcessor, apply_events_to_registry, process_confirmed_events, process_pending_events,
}
use evm_dex_pool.BlockSource.{
  ProcessingMode, apply_only, confirmed_with_swaps, pending, EventBatch, Answers, BlockSource,
}

pub record UnifiedPoolUpdater (P S : Type 0) : Type 0 where
  pub source : S
  pub event_processor : EventProcessor
  pub pool_registry : PoolRegistry P

-- The cursor that `new` starts from.
unfoldable pub started : {P : Type 0} → PoolRegistry P → ℕ → PoolRegistry P
started r start_block =
    let current_block = r.last_processed_block in
    if current_block == 0
    then set_last_processed_block r start_block
    else if ltb 0 start_block && ltb current_block start_block
    then set_last_processed_block r start_block
    else r

unfoldable pub new : {P S : Type 0} → PoolRegistry P → S → Bool → ℕ → UnifiedPoolUpdater P S
unfolding started
new r source swap_event_tx start_block =
    let registry = started r start_block in
    record {
      source = source;
      event_processor = record {
        swap_event_tx = swap_event_tx;
        profitable_topics = registry.profitable_topics;
      };
      pool_registry = registry;
    }

-- `if let Some(block) = processed_through_block`
unfoldable pub advanced : {P : Type 0} → PoolRegistry P → Option ℕ → PoolRegistry P
advanced r none = r
advanced r (some block) = set_last_processed_block r block

module _ {P : Type 0} (pools : PoolInterface P) where
  -- The registry after the events, and the logs that were sent on.
  unfoldable pub process :
      EventProcessor
      → PoolRegistry P
      → ProcessingMode
      → List Log
      → Outcome (PoolRegistry P × List Log)
  process self r apply_only events = apply_events_to_registry pools r events >>= λ r'. ok (r', [])
  process self r confirmed_with_swaps events = process_confirmed_events pools self r events
  process self r pending events =
      process_pending_events pools self r events >>= λ (_, sent). ok (r, sent)

  module _ {S : Type 0} (source : BlockSource P S) where
    -- The rest of the loop of `start`, after a turn of the source.
    unfoldable pub handle_batch :
        UnifiedPoolUpdater P S → S × Option EventBatch → Outcome (UnifiedPoolUpdater P S × List Log)
    unfolding process advanced
    handle_batch self (s, none) = ok (record self { source = s }, [])
    handle_batch self (s, some batch) = do
      (r, sent) ← process self.event_processor self.pool_registry batch.processing_mode batch.events
      ok (
        record self { source = s; pool_registry = advanced r batch.processed_through_block },
        sent,
      )

    unfoldable pub updater_turn :
        UnifiedPoolUpdater P S → Answers → Outcome (UnifiedPoolUpdater P S × List Log)
    unfolding handle_batch
    updater_turn self a = source.turn self.pool_registry a self.source >>= handle_batch self

    -- `start`, for as long as there are answers: the updater, and all that was sent on.
    unfoldable pub start :
        UnifiedPoolUpdater P S → List Answers → Outcome (UnifiedPoolUpdater P S × List Log)
    unfolding updater_turn
    start self [] = ok (self, [])
    start self (a ∷ answers) = do
      (self', sent) ← updater_turn self a
      (self'', more) ← start self' answers
      ok (self'', sent ++ more)
