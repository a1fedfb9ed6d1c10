-- ===== src/BlockSource/Websocket/Floor.antt =====
-- The turns of the websocket source of src/collector/block_source.rs: no log from before the floor
-- is ever handed on.
use evm_dex_pool.Base.{
  ℕ, ◌-◌, ◌&&◌, ltb, List, [], ◌∷◌, All, All-append, ◌≡◌, refl, Option, none, some, Bool-cases, inl,
  inr,
}
use evm_dex_pool.Base.Search.{is_empty}
use evm_dex_pool.Base.Sort.{sort_stable-All}
use evm_dex_pool.BTreeMap
use evm_dex_pool.BTreeMap.{BTreeMap}
use evm_dex_pool.BTreeMap.Order.{insert-Every, remove-Every, get-Every}
use evm_dex_pool.Chain.{Log, LogPosition, log_position}
use evm_dex_pool.Queue.{Gap}
use evm_dex_pool.BlockSource.Settler.{
  Arrived, BlockSettler, Settled, logs_in, block_of, add_log, add, placed_before, take_first,
  take_ready,
}
use evm_dex_pool.BlockSource.Websocket.{from_floor, retain_from}
use evm_dex_pool.BlockSource.Websocket.Gaps.{IsFresh, IsLost}

module _ (floor : LogPosition) where
  abbrev AreFresh : ℕ → Arrived → Type 0
  AreFresh block (logs, last_arrival) = All (IsFresh floor) logs

  -- What the settler holds is from the floor on.
  abbrev pub HoldsFresh : BlockSettler → Type 0
  HoldsFresh s = BTreeMap.Every AreFresh s.pending

  logs_in-IsFresh :
      (o : Option Arrived)
      → ((v : Arrived) → o ≡ some v → AreFresh 0 v)
      → All (IsFresh floor) (logs_in o)
  logs_in-IsFresh none h = tt
  logs_in-IsFresh (some v) h = h v refl

  add_log-HoldsFresh :
      (s : BlockSettler) (now : ℕ) (log : Log)
      → IsFresh floor log
      → HoldsFresh s
      → HoldsFresh (add_log s now log)
  unfolding add_log
  add_log-HoldsFresh s now log f h = elim (Bool-cases log.removed) [
    | inl gone ↦ simp gone h
    | inr mined ↦
        let block = block_of s.released_through log in
        simp mined (
          insert-Every AreFresh block _ s.pending
            (All-append (IsFresh floor) (logs_in (BTreeMap.get block s.pending)) (log ∷ [])
              (logs_in-IsFresh (BTreeMap.get block s.pending)
                (λ v e. get-Every AreFresh block v s.pending h e))
              (f, tt))
            h)
  ]

  pub add-HoldsFresh :
      (logs : List Log) (s : BlockSettler) (now : ℕ)
      → All (IsFresh floor) logs
      → HoldsFresh s
      → HoldsFresh (add s logs now)
  unfolding add
  add-HoldsFresh [] s now fs h = h
  add-HoldsFresh (log ∷ logs) s now (f, fs) h =
      add-HoldsFresh logs (add_log s now log) now fs (add_log-HoldsFresh s now log f h)

  pub retain_from-IsFresh : (logs : List Log) → All (IsFresh floor) (retain_from floor logs)
  unfolding retain_from
  retain_from-IsFresh [] = tt
  retain_from-IsFresh (log ∷ logs) = elim (Bool-cases (from_floor floor (log_position log))) [
    | inl kept ↦ rw (kept, retain_from) (kept, retain_from-IsFresh logs)
    | inr old ↦ rw (old, retain_from) (retain_from-IsFresh logs)
  ]

  IsLost-IsFresh : (gap : Gap) (log : Log) → IsLost gap floor log → IsFresh floor log
  IsLost-IsFresh gap log l = rw l.position_is l.from_floor_on

  pub IsLost-AreFresh :
      (gap : Gap) (logs : List Log) → All (IsLost gap floor) logs → All (IsFresh floor) logs
  IsLost-AreFresh gap [] ls = tt
  IsLost-AreFresh gap (log ∷ logs) (l, ls) = (IsLost-IsFresh gap log l, IsLost-AreFresh gap logs ls)

  -- What an answer of the settler holds.
  abbrev pub FreshAnswer : BlockSettler × Option Settled → Type 0
  FreshAnswer (s, none) = HoldsFresh s
  FreshAnswer (s, some x) = HoldsFresh s × All (IsFresh floor) x.logs

  take_first-FreshAnswer :
      (s : BlockSettler) (now : ℕ) (m : BTreeMap Arrived)
      → BTreeMap.Every AreFresh m
      → HoldsFresh s
      → FreshAnswer (take_first s now m)
  unfolding take_first
  take_first-FreshAnswer s now [] own h = h
  take_first-FreshAnswer s now ((block, (logs, last)) ∷ later) own h =
      elim (Bool-cases (is_empty later && ltb (now - last) s.settle)) [
        | inl waits ↦ rw (waits, take_first) h
        | inr goes ↦
            rw (goes, take_first)
              (
                remove-Every AreFresh block s.pending h,
                sort_stable-All placed_before (IsFresh floor) logs own.0,
              )
      ]

  pub take_ready-FreshAnswer :
      (s : BlockSettler) (now : ℕ) → HoldsFresh s → FreshAnswer (take_ready s now)
  unfolding take_ready
  take_ready-FreshAnswer s now h = take_first-FreshAnswer s now s.pending h h
