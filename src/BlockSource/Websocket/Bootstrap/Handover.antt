-- ===== src/BlockSource/Websocket/Bootstrap/Handover.antt =====
-- What the bootstrap of src/collector/block_source.rs applies, on each side of the handover from
-- RPC to the queue.
use evm_dex_pool.Base.{
  ℕ, Bool, true, false, if◌then◌else◌, List, [], ◌∷◌, ◌++◌, All, All-append, ◌≡◌, refl, ap, sym,
  ◌∙◌, none, some, arith, Bool-cases, Option-cases, inl, inr,
}
use evm_dex_pool.BTreeMap
use evm_dex_pool.BTreeMap.{BTreeMap}
use evm_dex_pool.BTreeMap.Lookup.{get-insert}
use evm_dex_pool.Chain.{Log, LogPosition, log_position, is_at_or_after}
use evm_dex_pool.Registry.{
  PoolInterface, PoolRegistry, get_pool, store, trader_joe_lb, get_addresses_by_type,
}
use evm_dex_pool.Timestamps.{enrich_if_lb_pools_present}
use evm_dex_pool.Processor.Groups.{logs_of}
use evm_dex_pool.Processor.Apply.{updated}
use evm_dex_pool.Updater.Caught.{updated-append, updated_nil}
use evm_dex_pool.BlockSource.{Answers}
use evm_dex_pool.BlockSource.Polling.{enriched}
use evm_dex_pool.BlockSource.Websocket.Bootstrap.{
  apply_event, apply_events, catch_up_logs, catch_up,
}

-- The log is of a place before the boundary.
abbrev pub Precedes : LogPosition → Log → Type 0
Precedes boundary log =
    (p : LogPosition) × (log_position log ≡ some p) × (is_at_or_after p boundary ≡ false)

-- The logs before the first at or after the boundary, less those without a place.
abbrev pub before : LogPosition → List Log → List Log
before boundary [] = []
before boundary (log ∷ logs) = elim (log_position log) [
  | none ↦ before boundary logs
  | some p ↦ if is_at_or_after p boundary then [] else log ∷ before boundary logs
]

-- Whether one of the logs is at or after the boundary.
abbrev pub crosses : LogPosition → List Log → Bool
crosses boundary [] = false
crosses boundary (log ∷ logs) = elim (log_position log) [
  | none ↦ crosses boundary logs
  | some p ↦ if is_at_or_after p boundary then true else crosses boundary logs
]

-- The logs of the answers for the ranges that come before the boundary, up to the first range
-- that reaches it.
pub data Caught (a : Answers) (known : BTreeMap ℕ) (boundary : LogPosition)
    : List (ℕ × ℕ) → List Log → Type 0 where
  nothing : Caught a known boundary [] []
  stopped :
      (start end : ℕ) (ranges : List (ℕ × ℕ)) (lb : List ℕ)
      → crosses boundary (enrich_if_lb_pools_present a.header lb (a.logs start end) known) ≡ true
      → Caught a known boundary
          ((start, end) ∷ ranges)
          (before boundary (enrich_if_lb_pools_present a.header lb (a.logs start end) known))
  went :
      (start end : ℕ) (ranges : List (ℕ × ℕ)) (rest : List Log) (lb : List ℕ)
      → crosses boundary (enrich_if_lb_pools_present a.header lb (a.logs start end) known) ≡ false
      → Caught a known boundary ranges rest
      → Caught a known boundary ((start, end) ∷ ranges) (
          before boundary (enrich_if_lb_pools_present a.header lb (a.logs start end) known) ++ rest)

pub before-Precedes :
    (boundary : LogPosition) (logs : List Log) → All (Precedes boundary) (before boundary logs)
before-Precedes boundary [] = tt
before-Precedes boundary (log ∷ logs) = elim (Option-cases (log_position log)) [
  | inl none_there ↦ rw (none_there, before) (before-Precedes boundary logs)
  | inr (p, place) ↦ elim (Bool-cases (is_at_or_after p boundary)) [
    | inl reached ↦ rw (place, before, reached) tt
    | inr short ↦ rw (place, before, short) ((p, place, short), before-Precedes boundary logs)
  ]
]

pub Caught-Precedes :
    (a : Answers) (known : BTreeMap ℕ) (boundary : LogPosition) {ranges : List (ℕ × ℕ)}
    {logs : List Log}
    → Caught a known boundary ranges logs
    → All (Precedes boundary) logs
Caught-Precedes a known boundary nothing = tt
Caught-Precedes a known boundary (stopped start end ranges lb c) =
    before-Precedes boundary (enrich_if_lb_pools_present a.header lb (a.logs start end) known)
Caught-Precedes a known boundary (went start end ranges rest lb c more) =
    All-append (Precedes boundary)
      (before boundary (enrich_if_lb_pools_present a.header lb (a.logs start end) known)) rest
      (before-Precedes boundary (enrich_if_lb_pools_present a.header lb (a.logs start end) known))
      (Caught-Precedes a known boundary more)

module _ {P : Type 0} (pools : PoolInterface P) where
  apply_event-updated :
      (r : PoolRegistry P) (log : Log) (x : ℕ)
      → get_pool (apply_event pools r log) x ≡ updated pools (logs_of x (log ∷ [])) (get_pool r x)
  unfolding apply_event get_pool store
  apply_event-updated r log x = elim (Option-cases (BTreeMap.get log.address r.by_address)) [
    | inl missing ↦ ground (arith, missing)
    | inr (pool, found) ↦
        ground (arith, found, get-insert x log.address (pools.apply_log pool log).0 r.by_address)
  ]

  pub apply_events-updated :
      (logs : List Log) (r : PoolRegistry P) (x : ℕ)
      → get_pool (apply_events pools r logs) x ≡ updated pools (logs_of x logs) (get_pool r x)
  unfolding apply_events
  apply_events-updated [] r x = updated_nil pools (get_pool r x)
  apply_events-updated (log ∷ logs) r x =
      apply_events-updated logs (apply_event pools r log) x
      ∙ ap (updated pools (logs_of x logs)) (apply_event-updated r log x)
      ∙ sym (updated-append pools x (log ∷ []) logs (get_pool r x))

  apply_events-append :
      (xs ys : List Log) (r : PoolRegistry P)
      → apply_events pools r (xs ++ ys) ≡ apply_events pools (apply_events pools r xs) ys
  unfolding apply_events
  apply_events-append [] ys r = refl
  apply_events-append (x ∷ xs) ys r = apply_events-append xs ys (apply_event pools r x)

  catch_up_logs-before :
      (boundary : LogPosition) (logs : List Log) (r : PoolRegistry P)
      → catch_up_logs pools boundary r logs
        ≡ (apply_events pools r (before boundary logs), crosses boundary logs)
  unfolding catch_up_logs apply_events
  catch_up_logs-before boundary [] r = refl
  catch_up_logs-before boundary (log ∷ logs) r = elim (Option-cases (log_position log)) [
    | inl none_there ↦
        rw (none_there, catch_up_logs, before, crosses) (catch_up_logs-before boundary logs r)
    | inr (p, place) ↦ elim (Bool-cases (is_at_or_after p boundary)) [
      | inl reached ↦ rw (place, catch_up_logs, before, crosses, reached) refl
      | inr short ↦
          rw (place, catch_up_logs, before, crosses, short)
            (catch_up_logs-before boundary logs (apply_event pools r log))
    ]
  ]

  -- What the catch-up does, range by range, is to apply logs from before the boundary.
  pub catch_up-Caught :
      (ranges : List (ℕ × ℕ)) (a : Answers) (known : BTreeMap ℕ) (boundary : LogPosition)
      (r : PoolRegistry P)
      → (logs : List Log) × (catch_up pools a known boundary r ranges ≡ apply_events pools r logs)
        × Caught a known boundary ranges logs
  unfolding catch_up enriched apply_events
  catch_up-Caught [] a known boundary r = ([], refl, nothing)
  catch_up-Caught ((start, end) ∷ ranges) a known boundary r =
      let answer = enriched pools r a known (a.logs start end) in
      let first = before boundary answer in
      let (rest, e, c) = catch_up-Caught ranges a known boundary (apply_events pools r first) in
      let go : PoolRegistry P × Bool → PoolRegistry P =
        λ out. elim out.1 [ true ↦ out.0 | false ↦ catch_up pools a known boundary out.0 ranges ] in
      elim (Bool-cases (crosses boundary answer)) [
        | inl reached ↦ (
          first,
          ap go (
              catch_up_logs-before boundary answer r
              ∙ ap (λ (b : Bool). (apply_events pools r first, b)) reached),
          stopped start end ranges (get_addresses_by_type pools r trader_joe_lb) reached,
        )
        | inr short ↦ (
          first ++ rest,
          ap go (
                catch_up_logs-before boundary answer r
                ∙ ap (λ (b : Bool). (apply_events pools r first, b)) short)
              ∙ e
              ∙ sym (apply_events-append first rest r),
          went start end ranges rest (get_addresses_by_type pools r trader_joe_lb) short c,
        )
      ]
