-- ===== src/Queue/Gaps.antt =====
-- The gaps that the listeners note and the source takes (src/collector/event_queue.rs).
use evm_dex_pool.Base.{
  ℕ, Bool, true, false, leb, List, [], ◌∷◌, ◌++◌, length, Option, none, some, Outcome, ok, err,
  panic, out_of_fuel, ◌≡◌, refl, ap, sym, ◌∙◌, arith, Bool-cases, inl, inr,
}
use mathlib.Core.List.{append_assoc, append-nil}
use evm_dex_pool.Queue.{
  EventQueue, Log, Gap, evict, make_room, enter, record_keyed, record_event, forward, claim, push,
  send, drain, take_gaps, note_gap, record_block_time, Call, send_call, claim_call, drain_call,
  take_gaps_call, close_call, note_gap_call, block_time_call, call, run,
}
use evm_dex_pool.Queue.RecentMap
use evm_dex_pool.Queue.RecentMap.{Key}

evict-gaps : (q : EventQueue) (ks : List Key) → (evict q ks).gaps ≡ q.gaps
unfolding evict
evict-gaps q [] = refl
evict-gaps q (k ∷ ks) = refl

enter-gaps : (q : EventQueue) (key : Key) (event : Log) → (enter q key event).0.gaps ≡ q.gaps
unfolding enter make_room
enter-gaps q key event = ground (
  arith,
  evict-gaps q q.event_order,
  Bool-cases (RecentMap.contains_key key q.recent_events),
  Bool-cases (leb q.max_events (length q.recent_events)),
)

record_keyed-gaps :
    (q : EventQueue) (event : Log) (h i : Option ℕ) → (record_keyed q event h i).0.gaps ≡ q.gaps
unfolding record_keyed
record_keyed-gaps q event none i = refl
record_keyed-gaps q event (some h) none = refl
record_keyed-gaps q event (some h) (some i) = enter-gaps q (h, i) event

push-gaps : (q : EventQueue) (event : Log) → (push q event).0.gaps ≡ q.gaps
unfolding push
push-gaps q event = elim (Bool-cases q.open_channel) [ inl e ↦ rw e refl | inr e ↦ rw e refl ]

forward-gaps :
    (q : EventQueue) (event : Log) (o : Outcome Bool) → (forward q event o).0.gaps ≡ q.gaps
unfolding forward
forward-gaps q event (ok true) = push-gaps q event
forward-gaps q event (ok false) = refl
forward-gaps q event (err e) = refl
forward-gaps q event panic = refl
forward-gaps q event out_of_fuel = refl

-- What a call notes, what it hands over, and the same of a sequence.
abbrev pub notes : Call → List Gap
notes (note_gap_call gap) = gap ∷ []
notes _ = []

abbrev pub takes : EventQueue → Call → List Gap
takes q take_gaps_call = (take_gaps q).1
takes q _ = []

abbrev pub noted : List Call → List Gap
noted [] = []
noted (c ∷ cs) = notes c ++ noted cs

abbrev pub taken : EventQueue → List Call → List Gap
taken q [] = []
taken q (c ∷ cs) = takes q c ++ taken (call q c) cs

call-gaps : (q : EventQueue) (c : Call) → q.gaps ++ notes c ≡ takes q c ++ (call q c).gaps
unfolding call claim send record_event drain take_gaps note_gap record_block_time
call-gaps q (send_call log) =
    append-nil q.gaps
    ∙ sym (
        forward-gaps (record_event q log).0 log (record_event q log).1
        ∙ record_keyed-gaps q log log.transaction_hash log.log_index)
call-gaps q (claim_call log) =
    append-nil q.gaps ∙ sym (record_keyed-gaps q log log.transaction_hash log.log_index)
call-gaps q drain_call = append-nil q.gaps
call-gaps q take_gaps_call = refl
call-gaps q close_call = append-nil q.gaps
call-gaps q (note_gap_call gap) = refl
call-gaps q (block_time_call n t) = append-nil q.gaps

-- Over any sequence of calls the gaps that were there and the gaps that are noted, in this order,
-- are the ones that the source has taken followed by the ones still to take: none is lost, handed
-- over twice or out of order.
pub run-gaps :
    (q : EventQueue) (cs : List Call) → q.gaps ++ noted cs ≡ taken q cs ++ (run q cs).gaps
unfolding run
run-gaps q [] = append-nil q.gaps
run-gaps q (c ∷ cs) =
    sym (append_assoc q.gaps (notes c) (noted cs))
    ∙ ap (λ l. l ++ noted cs) (call-gaps q c)
    ∙ append_assoc (takes q c) (call q c).gaps (noted cs)
    ∙ ap (λ l. takes q c ++ l) (run-gaps (call q c) cs)
    ∙ sym (append_assoc (takes q c) (taken (call q c) cs) (run (call q c) cs).gaps)
