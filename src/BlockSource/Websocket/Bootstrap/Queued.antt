-- ===== src/BlockSource/Websocket/Bootstrap/Queued.antt =====
-- The logs that the bootstrap of src/collector/block_source.rs takes from the queue and its gaps.
use evm_dex_pool.Base.{
  ℕ, ◌≤◌, Bool, true, false, not, if◌then◌else◌, List, [], ◌∷◌, ◌++◌, All, All-append, ◌≡◌, refl,
  arith, ok, ◌>>=◌, Returns, Bool-cases, inl, inr,
}
use evm_dex_pool.Base.Sort.{sort_stable, sort_stable-All, count, count-sort, count-append}
use evm_dex_pool.Chain.{Log, LogPosition}
use evm_dex_pool.Queue.{Gap, take_gaps, note_gap}
use evm_dex_pool.BlockSource.Websocket.{WebsocketBlockSource}
use evm_dex_pool.BlockSource.Websocket.Gaps.{IsFresh, IsBounded, fetch_gap-IsLost}
use evm_dex_pool.BlockSource.Websocket.Floor.{IsLost-AreFresh}
use evm_dex_pool.BlockSource.Websocket.Bootstrap.{
  has_position, fill_drained, position_before, queued_events,
}

-- What the gaps add to the logs: only logs from the floor on, with none of those of the queue lost.
record FilledIn (self : WebsocketBlockSource) (events : List Log)
    (result : WebsocketBlockSource × List Log × Bool) : Type 0 where
  floor_is : result.0.fill_floor ≡ self.fill_floor
  span_is : result.0.max_blocks_per_batch ≡ self.max_blocks_per_batch
  settle_is : result.0.block_settle ≡ self.block_settle
  fresh : All (IsFresh self.fill_floor) result.1
  keeps : (wanted : Log → Bool) → count wanted events ≤ count wanted result.1

fill_drained-FilledIn :
    (gaps : List Gap) (self : WebsocketBlockSource) (logs : ℕ → ℕ → List Log)
    (drained events : List Log) (filled : Bool)
    → All (IsBounded self.max_blocks_per_batch self.fill_floor) gaps
    → All (IsFresh self.fill_floor) events
    → Returns (fill_drained self logs drained gaps events filled) (FilledIn self events)
unfolding fill_drained
fill_drained-FilledIn [] self logs drained events filled bs fs = (
  (self, events, filled),
  refl,
  record {
    floor_is = refl;
    span_is = refl;
    settle_is = refl;
    fresh = fs;
    keeps = λ wanted. omega arith;
  },
)
fill_drained-FilledIn (gap ∷ gaps) self logs drained events filled (b, bs) fs =
    elim (Bool-cases (has_position gap.before drained)) [
      | inl closes ↦
          let ((q, missed), e, lost) = fetch_gap-IsLost self logs gap b in
          let (result, e', done) =
            fill_drained-FilledIn gaps (record self { event_queue = q }) logs drained
              (events ++ missed) true bs
              (All-append (IsFresh self.fill_floor) events missed fs
                (IsLost-AreFresh self.fill_floor gap missed lost)) in
          rw (closes, fill_drained, e)
            (
              result,
              e',
              record {
                floor_is = done.floor_is;
                span_is = done.span_is;
                settle_is = done.settle_is;
                fresh = done.fresh;
                keeps =
                    λ wanted. omega (arith, done.keeps wanted, count-append wanted events missed);
              },
            )
      | inr opens ↦
          let (result, e', done) =
            fill_drained-FilledIn gaps (record self { event_queue = note_gap self.event_queue gap })
              logs drained events filled bs fs in
          rw (opens, fill_drained)
            (
              result,
              e',
              record {
                floor_is = done.floor_is;
                span_is = done.span_is;
                settle_is = done.settle_is;
                fresh = done.fresh;
                keeps = done.keeps;
              },
            )
    ]

sorted-IsFresh :
    (floor : LogPosition) (all : List Log) (filled : Bool)
    → All (IsFresh floor) all
    → All (IsFresh floor) (if filled then sort_stable position_before all else all)
sorted-IsFresh floor all true fs = sort_stable-All position_before (IsFresh floor) all fs
sorted-IsFresh floor all false fs = fs

sorted-count :
    (wanted : Log → Bool) (all : List Log) (filled : Bool)
    → count wanted (if filled then sort_stable position_before all else all) ≡ count wanted all
sorted-count wanted all true = count-sort position_before wanted all
sorted-count wanted all false = refl

pub record QueuedUp (self : WebsocketBlockSource) (events : List Log)
    (result : WebsocketBlockSource × List Log) : Type 0 where
  pub floor_is : result.0.fill_floor ≡ self.fill_floor
  pub settle_is : result.0.block_settle ≡ self.block_settle
  pub fresh : All (IsFresh self.fill_floor) result.1
  pub keeps : (wanted : Log → Bool) → count wanted events ≤ count wanted result.1

-- With a source whose gaps are taken, on either setting of the gap fill.
filled_if-QueuedUp :
    (fills : Bool) (taken : WebsocketBlockSource) (gaps : List Gap) (logs : ℕ → ℕ → List Log)
    (events : List Log)
    → All (IsBounded taken.max_blocks_per_batch taken.fill_floor) gaps
    → All (IsFresh taken.fill_floor) events
    → Returns
        (if not fills
          then ok (taken, events)
          else fill_drained taken logs events gaps events false >>= λ (next, all, filled).
              ok (next, if filled then sort_stable position_before all else all))
        (QueuedUp taken events)
filled_if-QueuedUp true taken gaps logs events bs fs =
    let ((next, all, filled), e, done) =
      fill_drained-FilledIn gaps taken logs events events false bs fs in
    rw e (
      _,
      refl,
      record {
        floor_is = done.floor_is;
        settle_is = done.settle_is;
        fresh = sorted-IsFresh taken.fill_floor all filled done.fresh;
        keeps = λ wanted. omega (arith, done.keeps wanted, sorted-count wanted all filled);
      },
    )
filled_if-QueuedUp false taken gaps logs events bs fs = (
  (taken, events),
  refl,
  record { floor_is = refl; settle_is = refl; fresh = fs; keeps = λ wanted. omega arith },
)

pub queued_events-QueuedUp :
    (self : WebsocketBlockSource) (logs : ℕ → ℕ → List Log) (events : List Log)
    → All (IsBounded self.max_blocks_per_batch self.fill_floor) self.event_queue.gaps
    → All (IsFresh self.fill_floor) events
    → Returns (queued_events self logs events) (QueuedUp self events)
unfolding queued_events take_gaps
queued_events-QueuedUp self logs events bs fs =
    let (result, e, k) =
      filled_if-QueuedUp self.fill_reconnect_gaps
        (record self { event_queue = (take_gaps self.event_queue).0 }) self.event_queue.gaps logs
        events bs fs in
    (
      result,
      e,
      record { floor_is = k.floor_is; settle_is = k.settle_is; fresh = k.fresh; keeps = k.keeps },
    )
