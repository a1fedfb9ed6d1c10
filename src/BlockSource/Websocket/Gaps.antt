-- ===== src/BlockSource/Websocket/Gaps.antt =====
-- Which logs the websocket source of src/collector/block_source.rs lets through: none from before
-- its floor, and of a gap only those that the feed lost.
use evm_dex_pool.Base.{
  ℕ, ◌+◌, ◌-◌, ◌^◌, ◌<◌, Bool, true, false, not, ◌||◌, List, [], ◌∷◌, All, All-append, ◌≡◌, refl,
  Option, none, some, arith, Outcome, ok, err, panic, out_of_fuel, Returns, Bool-cases, inl, inr,
}
use evm_dex_pool.Chain.{Log, LogPosition, log_position, position_ltb, is_at_or_after}
use evm_dex_pool.Queue.{EventQueue, Gap, claim}
use evm_dex_pool.BlockSource.Batches.Tiles.{catchup_batches-once}
use evm_dex_pool.BlockSource.Websocket.{
  WebsocketBlockSource, is_after, in_gap, is_closed, take_claimed, take_missed, fetch_logs,
  fetch_ranges, first_block, fetch_gap, from_floor,
}

-- Not from before the floor.
abbrev pub IsFresh : LogPosition → Log → Type 0
IsFresh floor log = from_floor floor (log_position log) ≡ true

-- A log of the gap: after the last one that came through, before the first one since, mined, and
-- none that was applied in the bootstrap.
pub record IsLost (gap : Gap) (floor : LogPosition) (log : Log) : Type 0 where
  pub position : LogPosition
  pub position_is : log_position log ≡ some position
  pub mined : log.removed ≡ false
  pub after_last : is_after gap.after position ≡ true
  pub before_next : position_ltb position gap.before ≡ true
  pub from_floor_on : is_at_or_after position floor ≡ true

module _ (gap : Gap) (floor : LogPosition) where
  take_claimed-IsLost :
      (r : EventQueue × Outcome Bool) (log : Log) (missed : List Log)
      → IsLost gap floor log
      → All (IsLost gap floor) missed
      → All (IsLost gap floor) (take_claimed r log missed).1
  unfolding take_claimed
  take_claimed-IsLost (q, ok true) log missed l h =
      All-append (IsLost gap floor) missed (log ∷ []) h (l, tt)
  take_claimed-IsLost (q, ok false) log missed l h = h
  take_claimed-IsLost (q, err e) log missed l h = h
  take_claimed-IsLost (q, panic) log missed l h = h
  take_claimed-IsLost (q, out_of_fuel) log missed l h = h

  take_missed-IsLost :
      (q : EventQueue) (log : Log) (o : Option LogPosition) (missed : List Log)
      → log_position log ≡ o
      → All (IsLost gap floor) missed
      → All (IsLost gap floor) (take_missed gap floor q log o missed).1
  unfolding take_missed
  take_missed-IsLost q log none missed e h = h
  take_missed-IsLost q log (some position) missed e h =
      elim (Bool-cases (log.removed || not (in_gap gap floor position))) [
        | inl passed ↦ rw (passed, take_missed) h
        | inr lost ↦
            rw (lost, take_missed)
              (take_claimed-IsLost (claim q log) log missed
                (record {
                  position = position;
                  position_is = e;
                  mined = ground arith;
                  after_last = ground arith;
                  before_next = ground arith;
                  from_floor_on = ground arith;
                })
                h)
      ]

  fetch_logs-IsLost :
      (fetched : List Log) (q : EventQueue) (missed : List Log)
      → All (IsLost gap floor) missed
      → All (IsLost gap floor) (fetch_logs gap floor q fetched missed).1
  unfolding fetch_logs
  fetch_logs-IsLost [] q missed h = h
  fetch_logs-IsLost (log ∷ fetched) q missed h =
      let (q', missed') = take_missed gap floor q log (log_position log) missed in
      fetch_logs-IsLost fetched q' missed'
        (take_missed-IsLost q log (log_position log) missed refl h)

  fetch_ranges-IsLost :
      (ranges : List (ℕ × ℕ)) (logs : ℕ → ℕ → List Log) (q : EventQueue) (missed : List Log)
      → All (IsLost gap floor) missed
      → All (IsLost gap floor) (fetch_ranges gap floor logs q ranges missed).1
  unfolding fetch_ranges
  fetch_ranges-IsLost [] logs q missed h = h
  fetch_ranges-IsLost ((start, end) ∷ ranges) logs q missed h =
      let (q', missed') = fetch_logs gap floor q (logs start end) missed in
      fetch_ranges-IsLost ranges logs q' missed' (fetch_logs-IsLost (logs start end) q missed h)

-- The blocks of a gap and of the floor are clear of the end of the integers.
pub record IsBounded (max_blocks : ℕ) (floor : LogPosition) (gap : Gap) : Type 0 where
  pub span : max_blocks < 2 ^ 64
  pub floor_fits : floor.0 < 2 ^ 64
  pub before_fits : gap.before.0 < 2 ^ 64
  pub after_fits : (p : LogPosition) → gap.after ≡ some p → p.0 < 2 ^ 64

first_block-fits :
    (max_blocks : ℕ) (floor : LogPosition) (gap : Gap) (o : Option LogPosition)
    → gap.after ≡ o
    → IsBounded max_blocks floor gap
    → first_block gap.after floor - 1 + 1 < 2 ^ 64
first_block-fits max_blocks floor gap none e b =
    let fits = b.floor_fits in rw (e, first_block) (omega arith)
first_block-fits max_blocks floor gap (some p) e b =
    let fits = b.floor_fits in rw (e, first_block) (omega (arith, b.after_fits p e))

-- For a gap, a floor and a number of blocks for a batch that are `u64`s, the gap fill ends without
-- a panic, and every log that it brings back was lost in the gap: it is no retraction and has a
-- place after the last log before the gap, before the log that closed it, and at or after the
-- floor.
pub fetch_gap-IsLost :
    (self : WebsocketBlockSource) (logs : ℕ → ℕ → List Log) (gap : Gap)
    → IsBounded self.max_blocks_per_batch self.fill_floor gap
    → Returns (fetch_gap self logs gap) (λ result. All (IsLost gap self.fill_floor) result.1)
unfolding fetch_gap
fetch_gap-IsLost self logs gap b = elim (Bool-cases (is_closed gap self.fill_floor)) [
  | inl closed ↦ rw (closed, fetch_gap) ((self.event_queue, []), refl, tt)
  | inr wide ↦
      let (ranges, e, t) =
        catchup_batches-once (first_block gap.after self.fill_floor - 1) self.max_blocks_per_batch
          gap.before.0
          (first_block-fits self.max_blocks_per_batch self.fill_floor gap gap.after refl b) b.span
          b.before_fits in
      rw (wide, fetch_gap, e)
        (_, refl, fetch_ranges-IsLost gap self.fill_floor ranges logs self.event_queue [] tt)
]
