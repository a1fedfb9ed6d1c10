-- ===== src/BlockSource/Websocket.antt =====
-- `WebsocketBlockSource` of src/collector/block_source.rs: the gap fill, and one turn of the loop
-- of `next_batch`. The node's answers are those of `Answers`; the clock is an argument.
pub mod Gaps
pub mod Floor
pub mod Turns
pub mod Bootstrap
use evm_dex_pool.Base.{
  ℕ, ◌+◌, ◌-◌, max, Bool, true, false, not, ◌&&◌, ◌||◌, ltb, leb, if◌then◌else◌, List, [], ◌∷◌,
  ◌++◌, Option, none, some, Outcome, ok, err, panic, out_of_fuel, ◌>>=◌,
}
use evm_dex_pool.BTreeMap.{BTreeMap}
use evm_dex_pool.Chain.{Log, LogPosition, log_position, position_ltb, is_at_or_after}
use evm_dex_pool.Registry.{PoolInterface, PoolRegistry}
use evm_dex_pool.Queue
use evm_dex_pool.Queue.{EventQueue, Gap, claim, drain, take_gaps}
use evm_dex_pool.BlockSource.{ProcessingMode, apply_only, confirmed_with_swaps, EventBatch, Answers}
use evm_dex_pool.BlockSource.Batches.{catchup_batches}
use evm_dex_pool.BlockSource.Polling.{enriched}
use evm_dex_pool.BlockSource.Settler
use evm_dex_pool.BlockSource.Settler.{BlockSettler, Settled, take_ready}

pub record WebsocketBlockSource : Type 0 where
  pub event_queue : EventQueue
  pub max_blocks_per_batch : ℕ
  pub block_settle : ℕ
  pub settler : BlockSettler
  pub fill_reconnect_gaps : Bool
  pub fill_floor : LogPosition
  pub apply_only_through : ℕ

unfoldable pub new_websocket : EventQueue → ℕ → ℕ → Bool → WebsocketBlockSource
unfolding Settler.new
new_websocket event_queue max_blocks_per_batch block_settle fill_reconnect_gaps = record {
  event_queue = event_queue;
  max_blocks_per_batch = max_blocks_per_batch;
  block_settle = block_settle;
  settler = Settler.new block_settle 0;
  fill_reconnect_gaps = fill_reconnect_gaps;
  fill_floor = (0, 0, 0);
  apply_only_through = 0;
}

-- `gap.after.is_none_or(|after| position > after)`
abbrev pub is_after : Option LogPosition → LogPosition → Bool
is_after none position = true
is_after (some after) position = position_ltb after position

abbrev pub in_gap : Gap → LogPosition → LogPosition → Bool
in_gap gap floor position =
    is_after gap.after position && position_ltb position gap.before && is_at_or_after position floor

-- Whether nothing lies between: `gap.before <= floor || gap.after.is_some_and(..)`.
abbrev pub is_closed : Gap → LogPosition → Bool
is_closed gap floor = not (position_ltb floor gap.before) || not (is_after gap.after gap.before)

-- The match on what `claim` says of a log: a new one is missed, all else is passed over.
unfoldable pub take_claimed : EventQueue × Outcome Bool → Log → List Log → EventQueue × List Log
take_claimed (q, ok true) log missed = (q, missed ++ (log ∷ []))
take_claimed (q, ok false) log missed = (q, missed)
take_claimed (q, err e) log missed = (q, missed)
take_claimed (q, panic) log missed = (q, missed)
take_claimed (q, out_of_fuel) log missed = (q, missed)

-- A log of the answer, by its position.
unfoldable pub take_missed :
    Gap → LogPosition → EventQueue → Log → Option LogPosition → List Log → EventQueue × List Log
unfolding take_claimed
take_missed gap floor q log none missed = (q, missed)
take_missed gap floor q log (some position) missed =
    if log.removed || not (in_gap gap floor position)
    then (q, missed)
    else take_claimed (claim q log) log missed

-- `for log in fetched`
unfoldable pub fetch_logs :
    Gap → LogPosition → EventQueue → List Log → List Log → EventQueue × List Log
unfolding take_missed
fetch_logs gap floor q [] missed = (q, missed)
fetch_logs gap floor q (log ∷ fetched) missed =
    let (q', missed') = take_missed gap floor q log (log_position log) missed in
    fetch_logs gap floor q' fetched missed'

-- `for (start, end) in catchup_batches(..)`
unfoldable pub fetch_ranges :
    Gap
    → LogPosition
    → (ℕ → ℕ → List Log)
    → EventQueue
    → List (ℕ × ℕ)
    → List Log
    → EventQueue × List Log
unfolding fetch_logs
fetch_ranges gap floor logs q [] missed = (q, missed)
fetch_ranges gap floor logs q ((start, end) ∷ ranges) missed =
    let (q', missed') = fetch_logs gap floor q (logs start end) missed in
    fetch_ranges gap floor logs q' ranges missed'

-- `gap.after.map_or(floor.0, |(block, _, _)| block).max(floor.0)`
abbrev pub first_block : Option LogPosition → LogPosition → ℕ
first_block none floor = floor.0
first_block (some after) floor = max after.0 floor.0

-- Once the node is past the block of `gap.before`.
unfoldable pub fetch_gap :
    WebsocketBlockSource → (ℕ → ℕ → List Log) → Gap → Outcome (EventQueue × List Log)
unfolding fetch_ranges catchup_batches
fetch_gap self logs gap =
    if is_closed gap self.fill_floor
    then ok (self.event_queue, [])
    else catchup_batches (first_block gap.after self.fill_floor - 1) self.max_blocks_per_batch
        gap.before.0
      >>= λ ranges. ok (fetch_ranges gap self.fill_floor logs self.event_queue ranges [])

unfoldable pub fill_gap :
    WebsocketBlockSource → (ℕ → ℕ → List Log) → ℕ → Gap → Outcome WebsocketBlockSource
unfolding fetch_gap Settler.add
fill_gap self logs now gap = do
  (q, missed) ← fetch_gap self logs gap
  ok (record self {
    event_queue = q;
    settler = Settler.add self.settler missed now;
    apply_only_through = max self.apply_only_through gap.before.0;
  })

unfoldable pub fill_gaps :
    WebsocketBlockSource → (ℕ → ℕ → List Log) → ℕ → List Gap → Outcome WebsocketBlockSource
unfolding fill_gap
fill_gaps self logs now [] = ok self
fill_gaps self logs now (gap ∷ gaps) =
    (if self.fill_reconnect_gaps then fill_gap self logs now gap else ok self) >>= λ self'.
    fill_gaps self' logs now gaps

-- `log_position(log).is_none_or(|position| position >= floor)`
abbrev pub from_floor : LogPosition → Option LogPosition → Bool
from_floor floor none = true
from_floor floor (some position) = is_at_or_after position floor

unfoldable pub retain_from : LogPosition → List Log → List Log
retain_from floor [] = []
retain_from floor (log ∷ logs) =
    let rest = retain_from floor logs in
    if from_floor floor (log_position log) then log ∷ rest else rest

unfoldable pub mode_of : ℕ → Settled → ProcessingMode
mode_of apply_only_through settled =
    if ltb settled.block settled.processed_through || leb settled.block apply_only_through
    then apply_only
    else confirmed_with_swaps

-- The source after the arrivals are filed and the gaps are filled.
unfoldable pub take_in : ℕ → Answers → WebsocketBlockSource → Outcome WebsocketBlockSource
unfolding drain take_gaps retain_from fill_gaps Settler.add
take_in now a self =
    let (q, arrived) = drain self.event_queue in
    let (q', gaps) = take_gaps q in
    let settler = Settler.add self.settler (retain_from self.fill_floor arrived) now in
    fill_gaps (record self { event_queue = q'; settler = settler }) a.logs now gaps

module _ {P : Type 0} (pools : PoolInterface P) where
  -- The batch of a settled block.
  unfoldable pub batch_of :
      PoolRegistry P → Answers → WebsocketBlockSource → Option Settled → Option EventBatch
  unfolding enriched mode_of
  batch_of r a self none = none
  batch_of r a self (some settled) = some (record {
    events = enriched pools r a self.event_queue.block_times settled.logs;
    processing_mode = mode_of self.apply_only_through settled;
    processed_through_block = some settled.processed_through;
  })

  unfoldable pub websocket_turn :
      ℕ
      → PoolRegistry P
      → Answers
      → WebsocketBlockSource
      → Outcome (WebsocketBlockSource × Option EventBatch)
  unfolding batch_of take_in take_ready
  websocket_turn now r a self = do
    self' ← take_in now a self
    let (settler, settled) = take_ready self'.settler now
    ok (record self' { settler = settler }, batch_of r a self' settled)
