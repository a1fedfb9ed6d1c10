-- ===== src/Timestamps/Laws.antt =====
-- What the enrichment of src/collector/utils.rs makes of each log, and which headers it reads.
use evm_dex_pool.Base.Search.{is_empty, contains}
use evm_dex_pool.Base.{
  All, ℕ, Bool, true, false, ◌&&◌, ◌||◌, ◌==◌, if◌then◌else◌, List, [], ◌∷◌, map, ◌≡◌, refl, Option,
  none, some, arith, Bool-cases, Option-cases, inl, inr, ==_refl,
}
use evm_dex_pool.BTreeMap
use evm_dex_pool.BTreeMap.{BTreeMap}
use evm_dex_pool.BTreeMap.Lookup.{get-insert}
use evm_dex_pool.Chain.{Log}
use evm_dex_pool.Timestamps.{
  enrich_if_lb_pools_present, lacks_block_timestamp, need_block, blocks_needing_timestamps,
  extend_times, time_in, set_time, fill_log, fill_block_timestamps, enrich_log_timestamps_where,
}

-- The time of a block: the known one, and otherwise its header's.
abbrev pub time_of : (ℕ → Option ℕ) → BTreeMap ℕ → Option ℕ → Option ℕ
time_of header known none = none
time_of header known (some n) = elim (BTreeMap.get n known) [
  | none ↦ header n
  | some time ↦ some time
]

-- What a log should become, by itself.
abbrev pub timed : (ℕ → Option ℕ) → (Log → Bool) → BTreeMap ℕ → Log → Log
timed header wanted known log =
    if wanted log && lacks_block_timestamp log
    then set_time log (time_of header known log.block_number)
    else log

-- Whether one of the logs wants the time of the block.
abbrev wants : ℕ → Option ℕ → Bool
wants n none = false
wants n (some m) = n == m

abbrev pub asked : (Log → Bool) → ℕ → List Log → Bool
asked wanted n [] = false
asked wanted n (log ∷ logs) =
    (wanted log && lacks_block_timestamp log && wants n log.block_number) || asked wanted n logs

get-extend_times :
    (header : ℕ → Option ℕ) (n : ℕ) (blocks : BTreeMap (Unit {0})) (times : BTreeMap ℕ)
    → BTreeMap.get n (extend_times header blocks times) ≡ elim (BTreeMap.get n blocks) [
      | none ↦ BTreeMap.get n times
      | some _ ↦ elim (header n) [ none ↦ BTreeMap.get n times | some t ↦ some t ]
    ]
unfolding extend_times BTreeMap.get
get-extend_times header n [] times = refl
get-extend_times header n ((m, _) ∷ blocks) times = elim (Option-cases (header m)) [
  | inl e ↦ ground (arith, e, get-extend_times header n blocks times)
  | inr (t, e) ↦ ground (
    arith,
    e,
    get-extend_times header n blocks (BTreeMap.insert m t times),
    get-insert n m t times,
  )
]

get-need_block :
    (known : BTreeMap ℕ) (n : ℕ) (block : Option ℕ) (blocks : BTreeMap (Unit {0}))
    → BTreeMap.get n (need_block known block blocks) ≡ elim (BTreeMap.get n known) [
      | none ↦ if wants n block then some tt else BTreeMap.get n blocks
      | some _ ↦ BTreeMap.get n blocks
    ]
unfolding need_block
get-need_block known n none blocks = ground arith
get-need_block known n (some m) blocks = elim (Option-cases (BTreeMap.get m known)) [
  | inl e ↦ ground (arith, e, get-insert n m tt blocks)
  | inr (t, e) ↦ ground (arith, e)
]

-- The header of a block is read where one of the logs asks for its time and it is not known.
get-blocks_needing :
    (wanted : Log → Bool) (known : BTreeMap ℕ) (n : ℕ) (logs : List Log)
    → BTreeMap.get n (blocks_needing_timestamps logs wanted known) ≡ elim (BTreeMap.get n known) [
      | none ↦ if asked wanted n logs then some tt else none
      | some _ ↦ none
    ]
unfolding blocks_needing_timestamps BTreeMap.get
get-blocks_needing wanted known n [] = ground arith
get-blocks_needing wanted known n (log ∷ logs) = ground (
  arith,
  get-blocks_needing wanted known n logs,
  get-need_block known n log.block_number (blocks_needing_timestamps logs wanted known),
)

time_in-time_of :
    (header : ℕ → Option ℕ) (known times : BTreeMap ℕ) (block : Option ℕ)
    → ((n : ℕ) → wants n block ≡ true → BTreeMap.get n times ≡ time_of header known (some n))
    → time_in times block ≡ time_of header known block
unfolding time_in
time_in-time_of header known times none right = refl
time_in-time_of header known times (some n) right = right n (==_refl n)

fill_log-timed :
    (header : ℕ → Option ℕ) (wanted : Log → Bool) (known times : BTreeMap ℕ) (log : Log)
    → ((n : ℕ)
        → (wanted log && lacks_block_timestamp log) ≡ true
        → wants n log.block_number ≡ true
        → BTreeMap.get n times ≡ time_of header known (some n))
    → fill_log wanted times log ≡ timed header wanted known log
unfolding fill_log
fill_log-timed header wanted known times log right =
    elim (Bool-cases (wanted log && lacks_block_timestamp log)) [
      | inl lacks ↦
          rw (lacks, time_in-time_of header known times log.block_number (λ n w. right n lacks w))
      | inr has ↦ rw has
    ]

fill-map :
    (header : ℕ → Option ℕ) (wanted : Log → Bool) (known times : BTreeMap ℕ) (logs : List Log)
    → ((n : ℕ) → asked wanted n logs ≡ true → BTreeMap.get n times ≡ time_of header known (some n))
    → fill_block_timestamps logs wanted times ≡ map (timed header wanted known) logs
unfolding fill_block_timestamps
fill-map header wanted known times [] right = refl
fill-map header wanted known times (log ∷ logs) right =
    rw
      (
        fill_log-timed header wanted known times log (λ n lacks w. right n (ground arith)),
        fill-map header wanted known times logs (λ n ask. right n (ground arith)),
      )
      (refl)

-- The enrichment changes exactly the wanted logs without a block time: each gets the known time of
-- its block, or else the one of the header, where it could be read. Every other log, and the order
-- of the logs, stays as it is.
pub enrich_each :
    (header : ℕ → Option ℕ) (wanted : Log → Bool) (known : BTreeMap ℕ) (logs : List Log)
    → enrich_log_timestamps_where header logs wanted known ≡ map (timed header wanted known) logs
unfolding enrich_log_timestamps_where
enrich_each header wanted known logs =
    fill-map header wanted known
      (extend_times header (blocks_needing_timestamps logs wanted known) known) logs
      (λ n ask. ground (
        arith,
        get-extend_times header n (blocks_needing_timestamps logs wanted known) known,
        get-blocks_needing wanted known n logs,
      ))

-- What does not depend on the block time holds after the enrichment as before it.
module _ {κ} (Q : Log → Type κ)
    (keeps : (log : Log) (time : Option ℕ) → Q log → Q (set_time log time))
    (header : ℕ → Option ℕ) where
  timed-keeps :
      (wanted : Log → Bool) (known : BTreeMap ℕ) (log : Log)
      → Q log
      → Q (timed header wanted known log)
  timed-keeps wanted known log h = elim (Bool-cases (wanted log && lacks_block_timestamp log)) [
    | inl e ↦ rw e (keeps log (time_of header known log.block_number) h)
    | inr e ↦ rw e h
  ]

  map-keeps :
      (wanted : Log → Bool) (known : BTreeMap ℕ) (logs : List Log)
      → All Q logs
      → All Q (map (timed header wanted known) logs)
  map-keeps wanted known [] hs = tt
  map-keeps wanted known (log ∷ logs) (h, hs) =
      (timed-keeps wanted known log h, map-keeps wanted known logs hs)

  pub enrich-All :
      (lb : List ℕ) (logs : List Log) (known : BTreeMap ℕ)
      → All Q logs
      → All Q (enrich_if_lb_pools_present header lb logs known)
  unfolding enrich_if_lb_pools_present is_empty
  enrich-All [] logs known hs = hs
  enrich-All (x ∷ lb) logs known hs =
      rw (enrich_each header (λ log. contains log.address (x ∷ lb)) known logs)
        (map-keeps (λ log. contains log.address (x ∷ lb)) known logs hs)
