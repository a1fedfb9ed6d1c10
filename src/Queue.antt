-- ===== src/Queue.antt =====
-- `EventQueue` and `EventSender` of src/collector/event_queue.rs: the deduplication of logs, the
-- channel to the reader, the block times and the noted gaps. `record` holds both of its locks for
-- its whole body, so that it is one step on the state; hash map and order queue are kept apart as
-- in the source. The channel of tokio is a list of what was sent and a test for its being open.
pub mod RecentMap
pub mod Times
pub mod Delivery
pub mod Steps
pub mod Once
pub mod Gaps
use evm_dex_pool.Base.{
  ℕ, zero, suc, ◌+◌, ◌-◌, Bool, true, false, ltb, leb, if◌then◌else◌, List, [], ◌∷◌, ◌++◌, length,
  Option, none, some, Outcome, ok, err, Error, missing_hash, missing_log_index, channel_closed,
  panic, out_of_fuel,
}
use evm_dex_pool.BTreeMap
use evm_dex_pool.BTreeMap.{BTreeMap}
use evm_dex_pool.Uint
pub use evm_dex_pool.Chain.{Log, LogPosition}
use RecentMap
use RecentMap.{Key, Recent}

abbrev pub block_times_kept : ℕ
block_times_kept = 64

-- A stretch of the chain that a feed lost.
pub record Gap : Type 0 where
  pub after : Option LogPosition
  pub before : LogPosition

pub record EventQueue : Type 0 where
  pub sent : List Log
  pub open_channel : Bool
  pub recent_events : Recent Log
  pub event_order : List Key
  pub block_times : BTreeMap ℕ
  pub gaps : List Gap
  pub max_events : ℕ

unfoldable pub new : ℕ → EventQueue
new max_events = record {
  sent = [];
  open_channel = true;
  recent_events = [];
  event_order = [];
  block_times = [];
  gaps = [];
  max_events = max_events;
}

-- `if let Some(old_key) = event_order.pop_front()`
unfoldable pub evict : EventQueue → List Key → EventQueue
evict q [] = q
evict q (old_key ∷ order) = record q {
  event_order = order;
  recent_events = RecentMap.remove old_key q.recent_events;
}

-- The eviction of the oldest event of a full map.
unfoldable pub make_room : EventQueue → EventQueue
make_room q = if leb q.max_events (length q.recent_events) then evict q q.event_order else q

-- `record`, of a log whose key is known.
unfoldable pub enter : EventQueue → Key → Log → EventQueue × Bool
enter q key event =
    if RecentMap.contains_key key q.recent_events
    then (q, false)
    else let r = make_room q in
      (
        record r {
          recent_events = RecentMap.insert key event r.recent_events;
          event_order = r.event_order ++ (key ∷ []);
        },
        true,
      )

-- `EventSender::record`, which `claim` passes on, by what the log has for a key.
unfoldable pub record_keyed : EventQueue → Log → Option ℕ → Option ℕ → EventQueue × Outcome Bool
record_keyed q event none index = (q, err missing_hash)
record_keyed q event (some hash) none = (q, err missing_log_index)
record_keyed q event (some hash) (some index) = let r = enter q (hash, index) event in (r.0, ok r.1)

unfoldable pub record_event : EventQueue → Log → EventQueue × Outcome Bool
record_event q event = record_keyed q event event.transaction_hash event.log_index

unfoldable pub claim : EventQueue → Log → EventQueue × Outcome Bool
claim = record_event

unfoldable pub push : EventQueue → Log → EventQueue × Outcome (Unit {0})
push q event =
    if q.open_channel
    then (record q { sent = q.sent ++ (event ∷ []) }, ok tt)
    else (q, err channel_closed)

-- The rest of `send` after `record`: only a new event goes to the channel.
unfoldable pub forward : EventQueue → Log → Outcome Bool → EventQueue × Outcome (Unit {0})
forward q event (ok true) = push q event
forward q event (ok false) = (q, ok tt)
forward q event (err e) = (q, err e)
forward q event panic = (q, panic)
forward q event out_of_fuel = (q, out_of_fuel)

unfoldable pub send : EventQueue → Log → EventQueue × Outcome (Unit {0})
send q event = let r = record_event q event in forward r.0 event r.1

unfoldable pub has_event : EventQueue → ℕ → ℕ → Bool
has_event q hash index = RecentMap.contains_key (hash, index) q.recent_events

-- `get_all_available_events`
unfoldable pub drain : EventQueue → EventQueue × List Log
drain q = (record q { sent = [] }, q.sent)

unfoldable pub note_gap : EventQueue → Gap → EventQueue
note_gap q gap = record q { gaps = q.gaps ++ (gap ∷ []) }

unfoldable pub take_gaps : EventQueue → EventQueue × List Gap
take_gaps q = (record q { gaps = [] }, q.gaps)

-- The loop of `pop_first`.
unfoldable pub pop_older : ℕ → BTreeMap ℕ → BTreeMap ℕ
pop_older oldest [] = []
pop_older oldest ((n, t) ∷ times) = if ltb n oldest then pop_older oldest times else (n, t) ∷ times

-- `(newest + 1).saturating_sub(BLOCK_TIMES_KEPT)` on `u64`.
unfoldable pub oldest_kept : ℕ → ℕ
oldest_kept newest = Uint.add 64 newest 1 - block_times_kept

unfoldable pub keep_time : BTreeMap ℕ → ℕ → ℕ → BTreeMap ℕ
keep_time times number timestamp =
    let inserted = BTreeMap.insert number timestamp times in
    elim (BTreeMap.last_key inserted) [
      | none ↦ inserted
      | some newest ↦ pop_older (oldest_kept newest) inserted
    ]

unfoldable pub record_block_time : EventQueue → ℕ → ℕ → EventQueue
record_block_time q number timestamp = record q {
  block_times = keep_time q.block_times number timestamp;
}

-- The calls of the listeners and of the reader.
pub data Call : Type 0 where
  send_call claim_call : Log → Call
  drain_call take_gaps_call close_call : Call
  note_gap_call : Gap → Call
  block_time_call : (number timestamp : ℕ) → Call

unfoldable pub call : EventQueue → Call → EventQueue
call q (send_call log) = (send q log).0
call q (claim_call log) = (claim q log).0
call q drain_call = (drain q).0
call q take_gaps_call = (take_gaps q).0
call q close_call = record q { open_channel = false }
call q (note_gap_call gap) = note_gap q gap
call q (block_time_call number timestamp) = record_block_time q number timestamp

unfoldable pub run : EventQueue → List Call → EventQueue
run q [] = q
run q (c ∷ cs) = run (call q c) cs
