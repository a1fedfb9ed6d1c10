-- ===== src/BlockSource/Settler/Held.antt =====
-- The logs that the settler of src/collector/block_source.rs holds, against those that it was
-- given and those that it handed on.
use evm_dex_pool.Base.{
  ℕ, ◌+◌, Bool, not, ◌&&◌, List, [], ◌∷◌, ◌++◌, ◌≡◌, refl, Option, none, some, arith, ap, ◌∙◌, ltb,
  ◌-◌, Bool-cases, inl, inr,
}
use evm_dex_pool.Base.Sort.{count, keep, count-sort, count-append}
use evm_dex_pool.BTreeMap
use evm_dex_pool.BTreeMap.{BTreeMap}
use evm_dex_pool.BTreeMap.Order.{insert-IsSorted, remove-IsSorted}
use evm_dex_pool.Base.Search.{is_empty}
use evm_dex_pool.BTreeMap.Lookup.{get_first}
use evm_dex_pool.BTreeMap.Range.{total}
use evm_dex_pool.BTreeMap.Total.{at, total-insert, total-remove}
use evm_dex_pool.Chain.{Log}
use evm_dex_pool.BlockSource.Settler.{
  Arrived, BlockSettler, Settled, new, logs_in, block_of, add_log, add, placed_before, take_first,
  take_ready, Call, arrive, ask, handed, run,
}

-- The logs that are not retractions.
abbrev kept : List Log → List Log
kept = keep (λ log. not log.removed)

-- What a run is given, and what it hands on.
abbrev pub given : List Call → List Log
given [] = []
given (arrive logs now ∷ calls) = kept logs ++ given calls
given (ask now ∷ calls) = given calls

abbrev pub logs_of_all : List Settled → List Log
logs_of_all [] = []
logs_of_all (settled ∷ rest) = settled.logs ++ logs_of_all rest

module _ (p : Log → Bool) where
  abbrev in_block : Arrived → ℕ
  in_block (logs, last_arrival) = count p logs

  -- How many of the logs that the settler holds pass a test.
  abbrev pub held : BlockSettler → ℕ
  held s = total (λ _. in_block) s.pending

  at-logs_in : (o : Option Arrived) → at in_block o ≡ count p (logs_in o)
  at-logs_in none = refl
  at-logs_in (some (logs, last_arrival)) = refl

  held-add_log :
      (s : BlockSettler) (now : ℕ) (log : Log)
      → BTreeMap.IsSorted s.pending
      → held (add_log s now log) ≡ held s + count p (kept (log ∷ []))
  unfolding add_log
  held-add_log s now log sorted =
      let block = block_of s.released_through log in
      let old = BTreeMap.get block s.pending in
      elim (Bool-cases log.removed) [
        | inl gone ↦ simp gone (omega arith)
        | inr mined ↦ simp mined (
            omega (
              arith,
              total-insert in_block block (logs_in old ++ (log ∷ []), now) s.pending sorted,
              at-logs_in old,
              count-append p (logs_in old) (log ∷ []),
            ))
      ]

  add_log-IsSorted :
      (s : BlockSettler) (now : ℕ) (log : Log)
      → BTreeMap.IsSorted s.pending
      → BTreeMap.IsSorted (add_log s now log).pending
  unfolding add_log
  add_log-IsSorted s now log sorted = elim (Bool-cases log.removed) [
    | inl gone ↦ simp gone sorted
    | inr mined ↦ simp mined (insert-IsSorted (block_of s.released_through log) _ s.pending sorted)
  ]

  held-add :
      (s : BlockSettler) (logs : List Log) (now : ℕ)
      → BTreeMap.IsSorted s.pending
      → (held (add s logs now) ≡ held s + count p (kept logs))
        × BTreeMap.IsSorted (add s logs now).pending
  unfolding add
  held-add s [] now sorted = (omega arith, sorted)
  held-add s (log ∷ logs) now sorted =
      let rest = held-add (add_log s now log) logs now (add_log-IsSorted s now log sorted) in
      (ground (arith, rest.0, held-add_log s now log sorted), rest.1)

  abbrev taken : Option Settled → ℕ
  taken none = 0
  taken (some settled) = count p settled.logs

  held-take :
      (s : BlockSettler) (now : ℕ) (m : BTreeMap Arrived)
      → s.pending ≡ m
      → BTreeMap.IsSorted s.pending
      → let (s', o) = take_first s now m in
        (taken o + held s' ≡ held s) × BTreeMap.IsSorted s'.pending
  unfolding take_first
  held-take s now [] e sorted = (omega arith, sorted)
  held-take s now ((block, (logs, last)) ∷ later) e sorted =
      elim (Bool-cases (is_empty later && ltb (now - last) s.settle)) [
        | inl waits ↦ rw waits (omega arith, sorted)
        | inr goes ↦ rw goes (
          ground (
            arith,
            total-remove in_block block s.pending,
            ap (BTreeMap.get block) e ∙ get_first block (logs, last) later,
            count-sort placed_before p logs,
          ),
          remove-IsSorted block s.pending sorted,
        )
      ]

  taken-handed :
      (o : Option Settled) (rest : List Settled)
      → count p (logs_of_all (handed o rest)) ≡ taken o + count p (logs_of_all rest)
  taken-handed none rest = omega arith
  taken-handed (some settled) rest = count-append p settled.logs (logs_of_all rest)

  run-held :
      (s : BlockSettler) (calls : List Call)
      → BTreeMap.IsSorted s.pending
      → let (s', out) = run s calls in
        count p (logs_of_all out) + held s' ≡ held s + count p (given calls)
  unfolding run take_ready
  run-held s [] sorted = omega arith
  run-held s (arrive logs now ∷ calls) sorted =
      let (h, sorted') = held-add s logs now sorted in
      omega (
        arith,
        run-held (add s logs now) calls sorted',
        h,
        count-append p (kept logs) (given calls),
      )
  run-held s (ask now ∷ calls) sorted =
      let (h, sorted') = held-take s now s.pending refl sorted in
      let (s', o) = take_first s now s.pending in
      omega (arith, run-held s' calls sorted', h, taken-handed o (run s' calls).1)

  -- Over any sequence of arrivals and questions, the logs that a new settler has handed on and
  -- those that it still holds are together, as often as each occurs, the logs that arrived and are
  -- no retractions.
  pub run-conserves :
      (settle released_through : ℕ) (calls : List Call)
      → let (s, out) = run (new settle released_through) calls in
        count p (logs_of_all out) + held s ≡ count p (given calls)
  unfolding new total
  run-conserves settle released_through calls =
      omega (arith, run-held (new settle released_through) calls tt)
