-- ===== src/BlockSource/Websocket/Bootstrap.antt =====
-- `bootstrap` of the websocket source of src/collector/block_source.rs: the catch-up over RPC to
-- the first log of the queue, the gaps that the queue knows of, and the logs of the queue.
pub mod Handover
pub mod First
pub mod Queued
pub mod Result
use evm_dex_pool.Base.{
  ℕ, ◌+◌, ◌-◌, ◌^◌, max, Bool, true, false, not, ltb, if◌then◌else◌, List, [], ◌∷◌, ◌++◌, Option,
  none, some, Outcome, ok, ◌>>=◌,
}
use evm_dex_pool.Base.Search.{is_empty}
use evm_dex_pool.Base.Sort.{sort_stable}
use evm_dex_pool.BTreeMap.{BTreeMap}
use evm_dex_pool.Chain.{Log, LogPosition, log_position, position_ltb, position_eq, is_at_or_after}
use evm_dex_pool.Registry.{PoolInterface, PoolRegistry, get_pool, store, set_last_processed_block}
use evm_dex_pool.Queue.{EventQueue, Gap, drain, take_gaps, note_gap}
use evm_dex_pool.BlockSource.{Answers}
use evm_dex_pool.BlockSource.Batches.{catchup_batches}
use evm_dex_pool.BlockSource.Polling.{enriched}
use evm_dex_pool.BlockSource.Settler
use evm_dex_pool.BlockSource.Settler.{unwrap_or, u64_max}
use evm_dex_pool.BlockSource.Websocket.{WebsocketBlockSource, fetch_gap}

abbrev earlier : Option LogPosition → Option LogPosition → Option LogPosition
earlier none rest = rest
earlier (some p) none = some p
earlier (some p) (some q) = some (if position_ltb q p then q else p)

-- `filter_map(log_position).min()`
unfoldable pub first_position : List Log → Option LogPosition
first_position [] = none
first_position (log ∷ logs) = earlier (log_position log) (first_position logs)

-- `drained.contains(&gap.before)`, on the positions of the logs.
unfoldable pub has_position : LogPosition → List Log → Bool
has_position p [] = false
has_position p (log ∷ logs) =
    let rest = has_position p logs in
    elim (log_position log) [ none ↦ rest | some q ↦ if position_eq p q then true else rest ]

-- The gaps whose closing log was drained are filled, the others noted again.
unfoldable pub fill_drained :
    WebsocketBlockSource
    → (ℕ → ℕ → List Log)
    → List Log
    → List Gap
    → List Log
    → Bool
    → Outcome (WebsocketBlockSource × List Log × Bool)
unfolding fetch_gap
fill_drained self logs drained [] events filled = ok (self, events, filled)
fill_drained self logs drained (gap ∷ gaps) events filled =
    if has_position gap.before drained
    then (fetch_gap self logs gap >>= λ (q, missed).
        fill_drained (record self { event_queue = q }) logs drained gaps (events ++ missed) true)
    else fill_drained (record self { event_queue = note_gap self.event_queue gap }) logs drained
        gaps events filled

-- `log_position(log).unwrap_or((u64::MAX, u64::MAX, u64::MAX))`
abbrev pub position_before : Log → Log → Bool
position_before x y =
    position_ltb (unwrap_or (u64_max, u64_max, u64_max) (log_position x))
      (unwrap_or (u64_max, u64_max, u64_max) (log_position y))

-- The queued logs with those of the gaps among them, in the order of the chain where any was
-- filled.
unfoldable pub queued_events :
    WebsocketBlockSource → (ℕ → ℕ → List Log) → List Log → Outcome (WebsocketBlockSource × List Log)
unfolding take_gaps fill_drained has_position
queued_events self logs events =
    let (q, gaps) = take_gaps self.event_queue in
    let taken = record self { event_queue = q } in
    if not self.fill_reconnect_gaps
    then ok (taken, events)
    else fill_drained taken logs events gaps events false >>= λ (self', all, filled).
        ok (self', if filled then sort_stable position_before all else all)

-- `filter_map(|e| e.block_number).max()`
unfoldable pub max_block : List Log → Option ℕ
max_block [] = none
max_block (log ∷ logs) =
    let rest = max_block logs in
    elim log.block_number [ none ↦ rest | some b ↦ some (max b (unwrap_or 0 rest)) ]

module _ {P : Type 0} (pools : PoolInterface P) where
  -- An error of the pool is only logged.
  unfoldable pub apply_event : PoolRegistry P → Log → PoolRegistry P
  unfolding get_pool store
  apply_event r event = elim (get_pool r event.address) [
    | none ↦ r
    | some pool ↦ store r event.address (pools.apply_log pool event).0
  ]

  unfoldable pub apply_events : PoolRegistry P → List Log → PoolRegistry P
  unfolding apply_event
  apply_events r [] = r
  apply_events r (event ∷ events) = apply_events (apply_event r event) events

  -- `for event in fetched_events`: the registry, and whether the boundary was reached.
  unfoldable pub catch_up_logs : LogPosition → PoolRegistry P → List Log → PoolRegistry P × Bool
  unfolding apply_event
  catch_up_logs boundary r [] = (r, false)
  catch_up_logs boundary r (event ∷ events) = elim (log_position event) [
    | none ↦ catch_up_logs boundary r events
    | some position ↦ elim (is_at_or_after position boundary) [
      | true ↦ (r, true)
      | false ↦ catch_up_logs boundary (apply_event r event) events
    ]
  ]

  -- `while batch_index < batches.len()`
  unfoldable pub catch_up :
      Answers → BTreeMap ℕ → LogPosition → PoolRegistry P → List (ℕ × ℕ) → PoolRegistry P
  unfolding catch_up_logs enriched
  catch_up a known boundary r [] = r
  catch_up a known boundary r ((start, end) ∷ batches) =
      let (r', should_break) =
        catch_up_logs boundary r (enriched pools r a known (a.logs start end)) in
      elim should_break [ true ↦ r' | false ↦ catch_up a known boundary r' batches ]

  unfoldable pub bootstrap :
      PoolRegistry P
      → Answers
      → WebsocketBlockSource
      → Outcome (PoolRegistry P × WebsocketBlockSource)
  unfolding drain first_position catch_up catchup_batches queued_events max_block apply_events
      set_last_processed_block Settler.new
  bootstrap r a self = do
    let (q, events) = drain self.event_queue
    let floor = unwrap_or (a.latest_block, 0, 0) (first_position events)
    let floored = record self { event_queue = q; fill_floor = floor }
    batches ← catchup_batches r.last_processed_block self.max_blocks_per_batch floor.0
    let caught = catch_up a q.block_times floor r batches
    (self', queued) ← queued_events floored a.logs events
    let block = unwrap_or floor.0 (max_block queued)
    let applied = apply_events caught (enriched pools caught a self'.event_queue.block_times queued)
    ok (
      set_last_processed_block applied block,
      record self' { settler = Settler.new self.block_settle block },
    )
