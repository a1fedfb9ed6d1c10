-- ===== src/Queue/Once.antt =====
-- A log that a feed sends or the gap fill claims: `send`, `claim` and `has_event` of
-- src/collector/event_queue.rs over the calls that follow.
use evm_dex_pool.Base.{ℕ, ◌<◌, true, false, List, some, ok, ◌≡◌, refl, ap, sym, subst, ◌∙◌, arith}
use evm_dex_pool.Queue.{
  EventQueue, Log, make_room, enter, record_keyed, record_event, forward, claim, send, has_event,
  Call, send_call, claim_call, call, run,
}
use evm_dex_pool.Queue.RecentMap.{known, contains_key-keys}
use evm_dex_pool.Queue.Delivery.{IsTracked, Within, Within-last, Within-known}
use evm_dex_pool.Queue.Steps.{
  cost, entries, call-Step, Step-IsTracked, Step-limit, run-Within, forward-Same,
}

-- The log carries this key.
pub record HasKey (log : Log) (hash index : ℕ) : Type 0 where
  pub hash_is : log.transaction_hash ≡ some hash
  pub index_is : log.log_index ≡ some index

-- A listener sends the log, or the gap fill claims it.
pub data Delivers (log : Log) : Call → Type 0 where
  by_listener : Delivers log (send_call log)
  by_gap_fill : Delivers log (claim_call log)

has_event-known :
    (q : EventQueue) (hash index : ℕ)
    → IsTracked q
    → has_event q hash index ≡ known (hash, index) q.event_order
unfolding has_event
has_event-known q hash index t =
    contains_key-keys (hash, index) q.recent_events ∙ ap (known (hash, index)) t.order

record_event-fresh :
    (q : EventQueue) (log : Log) (hash index : ℕ)
    → HasKey log hash index
    → has_event q hash index ≡ false
    → Within 0 (hash, index) (record_event q log).0.event_order
unfolding record_event record_keyed has_event enter
record_event-fresh q log hash index k new =
    rw (k.hash_is, k.index_is, new) (Within-last (hash, index) (make_room q).event_order)

record_event-known :
    (q : EventQueue) (log : Log) (hash index : ℕ)
    → HasKey log hash index
    → has_event q hash index ≡ true
    → record_event q log ≡ (q, ok false)
unfolding record_event record_keyed has_event enter
record_event-known q log hash index k old = rw (k.hash_is, k.index_is, old) refl

call-fresh :
    (q : EventQueue) (log : Log) (hash index : ℕ)
    → HasKey log hash index
    → has_event q hash index ≡ false
    → (c : Call) → Delivers log c
    → Within 0 (hash, index) (call q c).event_order
unfolding call claim send
call-fresh q log hash index k new _ by_gap_fill = record_event-fresh q log hash index k new
call-fresh q log hash index k new _ by_listener =
    subst (Within 0 (hash, index))
      (sym (forward-Same (record_event q log).0 log (record_event q log).1).order)
      (record_event-fresh q log hash index k new)

-- What a queue that knows a log does with it.
pub record Ignores (q : EventQueue) (log : Log) (hash index : ℕ) : Type 0 where
  pub still_known : has_event q hash index ≡ true
  pub send_skips : send q log ≡ (q, ok tt)
  pub claim_refuses : claim q log ≡ (q, ok false)

-- After a log of a key that a tracked queue does not know is sent or claimed, and then any calls of
-- which fewer than the limit send or claim a log, the queue knows the key: sending a log of that
-- key succeeds and changes nothing, and claiming it answers `false` and changes nothing.
pub delivered_once :
    (q : EventQueue)
    → IsTracked q
    → (log : Log) (hash index : ℕ) → HasKey log hash index
    → has_event q hash index ≡ false
    → (c : Call) → Delivers log c
    → (cs : List Call) → entries cs < q.max_events
    → Ignores (run (call q c) cs) log hash index
unfolding send claim forward
delivered_once q t log hash index k new c d cs few =
    let s = call-Step q t c in
    let t' = Step-IsTracked q t (cost c) (call q c) s in
    let w =
      run-Within (call q c) t' 0 (hash, index) cs
        (omega (arith, Step-limit q t (cost c) (call q c) s))
        (call-fresh q log hash index k new c d) in
    let knows : has_event (run (call q c) cs) hash index ≡ true =
      has_event-known (run (call q c) cs) hash index w.0
      ∙ Within-known _ (hash, index) (run (call q c) cs).event_order w.1 in
    let refuses = record_event-known (run (call q c) cs) log hash index k knows in
    record { still_known = knows; send_skips = rw refuses refl; claim_refuses = refuses }
