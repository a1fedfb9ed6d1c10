-- ===== src/Queue/Steps.antt =====
-- What a call of src/collector/event_queue.rs does to the recent events.
use evm_dex_pool.Base.{
  ℕ, suc, ◌+◌, ◌<◌, Bool, true, false, List, [], ◌∷◌, ◌++◌, length, Option, none, some, Outcome, ok,
  err, panic, out_of_fuel, ◌≡◌, refl, ap, sym, subst, ◌∙◌, arith, Bool-cases, inl, inr,
}
use evm_dex_pool.Queue.{
  EventQueue, Log, make_room, enter, record_keyed, record_event, forward, claim, push, send, drain,
  take_gaps, note_gap, record_block_time, new, Call, send_call, claim_call, drain_call,
  take_gaps_call, close_call, note_gap_call, block_time_call, call, run,
}
use evm_dex_pool.Queue.RecentMap
use evm_dex_pool.Queue.RecentMap.{Key, keys, known, Distinct, contains_key-keys}
use evm_dex_pool.Queue.Delivery.{
  IsTracked, Within, Within-append, Within-more, Room, make_room-Room, Room-IsOpen, joined,
  joined-IsTracked, Room-Within,
}

-- The same events in the same order.
pub record Same (q r : EventQueue) : Type 0 where
  pub events : r.recent_events ≡ q.recent_events
  pub order : r.event_order ≡ q.event_order
  pub limit : r.max_events ≡ q.max_events

-- How many calls of a sequence may enter an event.
abbrev pub cost : Call → ℕ
cost (send_call log) = 1
cost (claim_call log) = 1
cost _ = 0

abbrev pub entries : List Call → ℕ
entries [] = 0
entries (c ∷ cs) = cost c + entries cs

abbrev same : {q : EventQueue} → Same q q
same = record { events = refl; order = refl; limit = refl }

push-Same : (q : EventQueue) (event : Log) → Same q (push q event).0
unfolding push
push-Same q event = elim (Bool-cases q.open_channel) [
  | inl e ↦ rw e (record { events = refl; order = refl; limit = refl })
  | inr e ↦ rw e same
]

pub forward-Same : (q : EventQueue) (event : Log) (o : Outcome Bool) → Same q (forward q event o).0
unfolding forward
forward-Same q event (ok true) = push-Same q event
forward-Same q event (ok false) = same
forward-Same q event (err e) = same
forward-Same q event panic = same
forward-Same q event out_of_fuel = same

module _ (q : EventQueue) (t : IsTracked q) where
  -- A step leaves the events as they are, or enters a new one.
  pub data Step : ℕ → EventQueue → Type 0 where
    quiet : {n : ℕ} (q' : EventQueue) → Same q q' → Step n q'
    entered :
        (key : Key) (event : Log) (r q' : EventQueue)
        → known key q.event_order ≡ false
        → Room q t r
        → Same (joined q t key event r) q'
        → Step 1 q'

  enter-Step : (key : Key) (event : Log) → Step 1 (enter q key event).0
  unfolding enter
  enter-Step key event = elim (Bool-cases (RecentMap.contains_key key q.recent_events)) [
    | inl old ↦ rw old (quiet q same)
    | inr new ↦ rw new (
        entered key event (make_room q) _
          (ap (known key) (sym t.order) ∙ sym (contains_key-keys key q.recent_events) ∙ new)
          (make_room-Room q t) (record { events = refl; order = refl; limit = refl }))
  ]

  Step-later : (n : ℕ) (r q' : EventQueue) → Step n r → Same r q' → Step n q'
  Step-later n _ q' (quiet r s) s' = quiet q' (record {
    events = s'.events ∙ s.events;
    order = s'.order ∙ s.order;
    limit = s'.limit ∙ s.limit;
  })
  Step-later n _ q' (entered key event r r' new room s) s' =
      entered key event r q' new room (record {
        events = s'.events ∙ s.events;
        order = s'.order ∙ s.order;
        limit = s'.limit ∙ s.limit;
      })

  record_keyed-Step : (event : Log) (h i : Option ℕ) → Step 1 (record_keyed q event h i).0
  unfolding record_keyed
  record_keyed-Step event none i = quiet q same
  record_keyed-Step event (some h) none = quiet q same
  record_keyed-Step event (some h) (some i) = enter-Step (h, i) event

  record_event-Step : (event : Log) → Step 1 (record_event q event).0
  unfolding record_event
  record_event-Step event = record_keyed-Step event event.transaction_hash event.log_index

  send-Step : (event : Log) → Step 1 (send q event).0
  unfolding send
  send-Step event =
      Step-later 1 (record_event q event).0 _ (record_event-Step event)
        (forward-Same (record_event q event).0 event (record_event q event).1)

  pub call-Step : (c : Call) → Step (cost c) (call q c)
  unfolding call claim drain take_gaps note_gap record_block_time
  call-Step (send_call log) = send-Step log
  call-Step (claim_call log) = record_event-Step log
  call-Step drain_call = quiet _ (record { events = refl; order = refl; limit = refl })
  call-Step take_gaps_call = quiet _ (record { events = refl; order = refl; limit = refl })
  call-Step close_call = quiet _ (record { events = refl; order = refl; limit = refl })
  call-Step (note_gap_call gap) = quiet _ (record { events = refl; order = refl; limit = refl })
  call-Step (block_time_call n s) = quiet _ (record { events = refl; order = refl; limit = refl })

  pub Step-IsTracked : (n : ℕ) (q' : EventQueue) → Step n q' → IsTracked q'
  Step-IsTracked n _ (quiet q' s) = record {
    order = ap keys s.events ∙ t.order ∙ sym s.order;
    distinct = subst Distinct (sym s.order) t.distinct;
    bounded = omega (arith, t.bounded, ap length s.order, s.limit);
  }
  Step-IsTracked n _ (entered key event r q' new room s) =
      let j = joined-IsTracked q t key event r (Room-IsOpen q t key r new room) in
      record {
        order = ap keys s.events ∙ j.order ∙ sym s.order;
        distinct = subst Distinct (sym s.order) j.distinct;
        bounded = omega (arith, j.bounded, ap length s.order, s.limit);
      }

  pub Step-limit : (n : ℕ) (q' : EventQueue) → Step n q' → q'.max_events ≡ q.max_events
  Step-limit n _ (quiet q' s) = s.limit
  Step-limit n _ (entered key event r q' new room s) =
      s.limit ∙ (Room-IsOpen q t key r new room).limit

  -- While few others follow a key, a step keeps it.
  Step-Within :
      (n m : ℕ) (key : Key) (q' : EventQueue)
      → n + m < q.max_events
      → Within n key q.event_order
      → Step m q'
      → Within (n + m) key q'.event_order
  Step-Within n m key _ less w (quiet q' s) =
      subst (Within (n + m) key) (sym s.order)
        (Within-more n (n + m) key q.event_order (omega arith) w)
  Step-Within n _ key _ less w (entered k event r q' new room s) =
      subst (Within (n + 1) key) (sym s.order) (
        Within-more (suc n) (n + 1) key (r.event_order ++ (k ∷ [])) (omega arith)
          (Within-append n key k r.event_order (Room-Within q t n key r (omega arith) w room)))

run-keeps : (q : EventQueue) → IsTracked q → (cs : List Call) → IsTracked (run q cs)
unfolding run
run-keeps q t [] = t
run-keeps q t (c ∷ cs) =
    run-keeps (call q c) (Step-IsTracked q t (cost c) (call q c) (call-Step q t c)) cs

-- The map and the order queue agree, hold each key once and stay within the limit, or one, after
-- any sequence of calls on a new queue of any limit.
pub run-IsTracked : (limit : ℕ) (cs : List Call) → IsTracked (run (new limit) cs)
unfolding new
run-IsTracked limit cs =
    run-keeps (new limit) (record { order = refl; distinct = tt; bounded = omega arith }) cs

pub run-Within :
    (q : EventQueue)
    → IsTracked q
    → (n : ℕ) (key : Key) (cs : List Call) → n + entries cs < q.max_events
    → Within n key q.event_order
    → IsTracked (run q cs) × Within (n + entries cs) key (run q cs).event_order
unfolding run
run-Within q t n key [] less w = (t, Within-more n (n + 0) key q.event_order (omega arith) w)
run-Within q t n key (c ∷ cs) less w =
    let s = call-Step q t c in
    let rest =
      run-Within (call q c) (Step-IsTracked q t (cost c) (call q c) s) (n + cost c) key cs
        (omega (arith, Step-limit q t (cost c) (call q c) s))
        (Step-Within q t n (cost c) key (call q c) (omega arith) w s) in
    (rest.0, Within-more _ _ key _ (omega arith) rest.1)
