-- ===== src/Tests/Collector.antt =====
-- The theorems on the collector at two small pools and a node that answers with a few logs.
use evm_dex_pool.Base.{
  ℕ, ◌+◌, ◌*◌, ◌<◌, ◌≡◌, ◌==◌, if◌then◌else◌, refl, List, [], ◌∷◌, All, true, false, none, some,
  arith, out_of_fuel, Returns, max, leb, ltb, ◌&&◌, map,
}
use evm_dex_pool.Base.Search.{contains}
use evm_dex_pool.Base.Sort.{count}
use evm_dex_pool.Chain.{Log}
use evm_dex_pool.Registry
use evm_dex_pool.Registry.{
  PoolInterface, PoolRegistry, trader_joe_lb, uniswap_v2, get_pool, add_topics, keys,
}
use evm_dex_pool.Registry.Tracking.{changed, added, dropped, IsTracked, changed-IsTracked}
use evm_dex_pool.Registry.Topics.{AreAdded, add_topics-AreAdded}
use evm_dex_pool.Timestamps.{enrich_log_timestamps_where}
use evm_dex_pool.Timestamps.Laws.{timed, enrich_each}
use evm_dex_pool.Processor.{
  EventProcessor, apply_events_to_registry, process_confirmed_events, process_pending_events,
  cloned,
}
use evm_dex_pool.Processor.Groups.{logs_of, IsMined}
use evm_dex_pool.Processor.Sent.{swaps_of}
use evm_dex_pool.Processor.Apply.{updated, IsApplied, apply_events-IsApplied}
use evm_dex_pool.Processor.Confirmed.{IsProcessed, process_confirmed-IsProcessed}
use evm_dex_pool.Processor.Pending.{of_pools, process_pending-IsSpeculated}
use evm_dex_pool.BlockSource.{Answers}
use evm_dex_pool.BlockSource.Batches.{catchup_batches, latest_loop, latest_batches}
use evm_dex_pool.BlockSource.Batches.Tiles.{fetches, AreShort, catchup_batches-once}
use evm_dex_pool.BlockSource.Batches.Latest.{
  ranges_of, AreMarked, latest_batches-once, latest_loop_endless,
}
use evm_dex_pool.BlockSource.Polling.{new_pending, new_latest, pending_source, latest_source}
use evm_dex_pool.BlockSource.Settler
use evm_dex_pool.BlockSource.Settler.{BlockSettler, arrive, ask, run}
use evm_dex_pool.BlockSource.Settler.Held.{given, logs_of_all, held, run-conserves}
use evm_dex_pool.BlockSource.Settler.Handed.{AreNext, run-ordered}
use evm_dex_pool.BlockSource.Settler.Ready.{asks, blocks_of, drained}
use evm_dex_pool.Updater.{started, new, start}
use evm_dex_pool.Updater.Contract.{IsSound}
use evm_dex_pool.Updater.Caught.{CaughtUp}
use evm_dex_pool.Updater.Sources.{pending-CaughtUp, latest-CaughtUp}

-- A pool is its address and what it has seen.
abbrev pub pools : PoolInterface (ℕ × ℕ)
pools = record {
  address = λ p. p.0;
  pool_type = λ p. if p.0 == 1 then trader_joe_lb else uniswap_v2;
  fee_needs_reading = λ p. p.0 == 2;
  apply_log = λ p log. ((p.0, p.1 * 10 + log.body), none);
}

abbrev pub log_at : ℕ → ℕ → ℕ → ℕ → Log
log_at block index address body = record {
  transaction_hash = some body;
  log_index = some index;
  block_number = some block;
  transaction_index = some 0;
  block_timestamp = none;
  removed = false;
  address = address;
  topic0 = some 7;
  body = body;
}

abbrev pub events : List Log
events = log_at 11 0 1 3 ∷ log_at 11 1 2 4 ∷ log_at 11 2 1 5 ∷ log_at 11 3 9 6 ∷ []

abbrev pub registry : PoolRegistry (ℕ × ℕ)
registry = record {
  by_address = (1, (1, 0)) ∷ (2, (2, 0)) ∷ [];
  dynamic_fee_addresses = (2, tt) ∷ [];
  last_processed_block = 10;
  topics = 7 ∷ [];
  profitable_topics = 7 ∷ [];
  network_id = 1;
}

abbrev processor : EventProcessor
processor = record { swap_event_tx = true; profitable_topics = 7 ∷ [] }

hash_of : (block index address body : ℕ) → IsMined (log_at block index address body)
hash_of block index address body = ((body, refl), (index, refl), (7, refl))

events-IsMined : All IsMined events
events-IsMined = (hash_of 11 0 1 3, (hash_of 11 1 2 4, (hash_of 11 2 1 5, (hash_of 11 3 9 6, tt))))

-- The node has a log for the first block of every range.
abbrev pub answers_at : ℕ → Answers
answers_at head = record {
  logs = λ from to. log_at from 0 1 3 ∷ [];
  pending_logs = events;
  latest_block = head;
  latest_time = 100;
  header = λ n. some (2 * n);
}

answers_at-IsSound :
    (max_blocks head : ℕ) → head + max_blocks < 1000 → IsSound max_blocks (answers_at head)
answers_at-IsSound max_blocks head small = record {
  fits = omega arith;
  mined = λ from to. (hash_of from 0 1 3, tt);
  pending_mined = events-IsMined;
}

abbrev answers : List Answers
answers = answers_at 15 ∷ answers_at 15 ∷ answers_at 16 ∷ answers_at 16 ∷ answers_at 16 ∷ []

answers-IsSound : All (IsSound 3) answers
answers-IsSound = (
  answers_at-IsSound 3 15 (omega arith),
  (
    answers_at-IsSound 3 15 (omega arith),
    (
      answers_at-IsSound 3 16 (omega arith),
      (answers_at-IsSound 3 16 (omega arith), (answers_at-IsSound 3 16 (omega arith), tt)),
    ),
  ),
)

pending-CaughtUp_example :
    Returns
      (start pools (pending_source pools 3) (new registry new_pending true 10) answers)
      (λ out. CaughtUp pools 3 (new registry new_pending true 10) answers out.0)
pending-CaughtUp_example =
    pending-CaughtUp pools 3 (omega arith) registry true 10 answers answers-IsSound
      (unfold started in omega arith)

latest-CaughtUp_example :
    Returns
      (start pools (latest_source pools) (new registry (new_latest 3) true 10) answers)
      (λ out. CaughtUp pools 3 (new registry (new_latest 3) true 10) answers out.0)
latest-CaughtUp_example =
    latest-CaughtUp pools 3 (omega arith) registry true 10 answers answers-IsSound
      (unfold started in omega arith)

process_confirmed-IsConfirmed_example :
    Returns
      (process_confirmed_events pools processor registry events)
      (IsProcessed pools processor registry (λ a. logs_of a events))
process_confirmed-IsConfirmed_example =
    process_confirmed-IsProcessed pools processor registry events events-IsMined

process_pending-IsSpeculated_example :
    Returns (process_pending_events pools processor registry events) (λ result.
      ((a : ℕ)
        → cloned registry result.0 a ≡ updated pools (logs_of a events) (get_pool registry a))
      × (result.1 ≡ swaps_of processor (of_pools pools processor registry events)))
process_pending-IsSpeculated_example =
    process_pending-IsSpeculated pools processor registry events refl events-IsMined

apply_events-IsApplied_example :
    Returns
      (apply_events_to_registry pools registry events)
      (IsApplied pools registry (λ a. logs_of a events))
apply_events-IsApplied_example =
    apply_events-IsApplied pools registry events
      ((3, refl), ((4, refl), ((5, refl), ((6, refl), tt))))

catchup_batches-once_example : Returns (catchup_batches 10 3 17) (λ ranges.
    ((block : ℕ) → fetches block ranges ≡ (if ltb 10 block && leb block 17 then 1 else 0))
    × AreShort (max 3 1) ranges)
catchup_batches-once_example =
    catchup_batches-once 10 3 17 (omega arith) (omega arith) (omega arith)

latest_batches-once_example : Returns (latest_batches 3 17 11) (λ batches.
    ((block : ℕ)
      → fetches block (ranges_of batches) ≡ (if leb 11 block && leb block 17 then 1 else 0))
    × AreShort 3 (ranges_of batches)
    × AreMarked 17 batches)
latest_batches-once_example = latest_batches-once 3 17 11 (omega arith) (omega arith) (omega arith)

latest_loop_endless_example : latest_loop 100 0 17 11 ≡ out_of_fuel
latest_loop_endless_example =
    latest_loop_endless 100 17 11 (omega arith) (omega arith) (omega arith)

abbrev calls : List Settler.Call
calls =
    arrive (log_at 12 1 1 2 ∷ log_at 11 0 1 1 ∷ log_at 12 0 1 3 ∷ []) 5
    ∷ ask 6
    ∷ ask 7
    ∷ arrive (log_at 11 5 1 4 ∷ []) 8
    ∷ ask 30
    ∷ []

run-conserves_example :
    let (s, out) = run (Settler.new 10 10) calls in
    count (λ log. log.body == 3) (logs_of_all out) + held (λ log. log.body == 3) s
    ≡ count (λ log. log.body == 3) (given calls)
run-conserves_example = run-conserves (λ log. log.body == 3) 10 10 calls

run-ordered_example : AreNext 10 (run (Settler.new 10 10) calls).1
run-ordered_example = run-ordered 10 10 calls

abbrev settler : BlockSettler
settler = record {
  settle = 10;
  pending = (11, (log_at 11 0 1 1 ∷ [], 5)) ∷ (12, (log_at 12 0 1 2 ∷ [], 6)) ∷ [];
  released_through = 10;
}

drained_example :
    let (s, out) = run settler (asks 20 settler.pending) in
    (blocks_of out ≡ keys settler.pending) × (s.pending ≡ [])
drained_example = drained settler 20 (omega arith, (omega arith, tt))

changed-IsTracked_example :
    IsTracked pools (changed pools (Registry.new 1) (added (1, 0) ∷ added (2, 0) ∷ dropped 2 ∷ []))
changed-IsTracked_example = changed-IsTracked pools 1 (added (1, 0) ∷ added (2, 0) ∷ dropped 2 ∷ [])

add_topics-AreAdded_example :
    AreAdded registry.topics (8 ∷ 7 ∷ 8 ∷ []) (add_topics registry (8 ∷ 7 ∷ 8 ∷ [])).topics
unfolding contains
add_topics-AreAdded_example = add_topics-AreAdded registry (8 ∷ 7 ∷ 8 ∷ []) (refl, tt)

enrich_each_example :
    enrich_log_timestamps_where (λ n. some (2 * n)) events (λ log. log.address == 1) []
    ≡ map (timed (λ n. some (2 * n)) (λ log. log.address == 1) []) events
enrich_each_example = enrich_each (λ n. some (2 * n)) (λ log. log.address == 1) [] events
