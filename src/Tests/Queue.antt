-- ===== src/Tests/Queue.antt =====
-- The theorems on src/collector/event_queue.rs at a small queue.
use evm_dex_pool.Base.{ℕ, ◌≡◌, refl, ◌++◌, List, [], ◌∷◌, false, none, some, arith}
use evm_dex_pool.Queue.{
  Log, Gap, Call, send_call, claim_call, drain_call, take_gaps_call, note_gap_call, call, run, new,
  has_event, keep_time,
}
use evm_dex_pool.Queue.RecentMap
use evm_dex_pool.Queue.Delivery.{IsTracked}
use evm_dex_pool.Queue.Steps.{run-IsTracked}
use evm_dex_pool.Queue.Once.{by_gap_fill, Ignores, delivered_once}
use evm_dex_pool.Queue.Times.{IsKept, keep_time-IsKept}
use evm_dex_pool.Queue.Gaps.{run-gaps, noted, taken}

abbrev log_of : ℕ → Log
log_of hash = record {
  transaction_hash = some hash;
  log_index = some 0;
  block_number = some 100;
  transaction_index = some 0;
  block_timestamp = none;
  removed = false;
  address = 1;
  topic0 = none;
  body = 0;
}

abbrev gap : Gap
gap = record { after = some (100, 3, 7); before = (103, 0, 0) }

abbrev calls : List Call
calls =
    send_call (log_of 2)
    ∷ note_gap_call gap
    ∷ send_call (log_of 1)
    ∷ take_gaps_call
    ∷ drain_call
    ∷ []

run-IsTracked_example : IsTracked (run (new 3) calls)
run-IsTracked_example = run-IsTracked 3 calls

delivered_once_example :
    Ignores (run (call (run (new 3) []) (claim_call (log_of 1))) calls) (log_of 1) 1 0
unfolding has_event new run RecentMap.contains_key
delivered_once_example =
    delivered_once (run (new 3) []) (run-IsTracked 3 []) (log_of 1) 1 0
      (record { hash_is = refl; index_is = refl }) refl (claim_call (log_of 1)) by_gap_fill calls
      (omega arith)

keep_time-IsKept_example :
    IsKept
      ((36, 5) ∷ (37, 6) ∷ (99, 7) ∷ [])
      101
      8
      (keep_time ((36, 5) ∷ (37, 6) ∷ (99, 7) ∷ []) 101 8)
keep_time-IsKept_example =
    keep_time-IsKept ((36, 5) ∷ (37, 6) ∷ (99, 7) ∷ []) 101 8
      (record { sorted = ground arith; small = ground arith }) (omega arith)

run-gaps_example : (new 3).gaps ++ noted calls ≡ taken (new 3) calls ++ (run (new 3) calls).gaps
run-gaps_example = run-gaps (new 3) calls
