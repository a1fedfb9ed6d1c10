-- ===== src/BlockSource/Settler.antt =====
-- `BlockSettler` of src/collector/block_source.rs. An `Instant` and a `Duration` are numbers, and
-- the time since an instant that is yet to come is 0.
pub mod Held
pub mod Handed
pub mod Ready
use evm_dex_pool.Base.{
  ℕ, ◌+◌, ◌-◌, ◌^◌, max, Bool, true, false, not, ◌&&◌, ltb, leb, if◌then◌else◌, List, [], ◌∷◌, ◌++◌,
  Option, none, some,
}
use evm_dex_pool.Base.Search.{is_empty}
use evm_dex_pool.Base.Sort.{sort_stable}
use evm_dex_pool.BTreeMap
use evm_dex_pool.BTreeMap.{BTreeMap}
use evm_dex_pool.Chain.{Log, pair_ltb}

-- A block's logs, with the arrival time of the latest.
abbrev pub Arrived : Type 0
Arrived = List Log × ℕ

pub record BlockSettler : Type 0 where
  pub settle : ℕ
  pub pending : BTreeMap Arrived
  pub released_through : ℕ

pub record Settled : Type 0 where
  pub block : ℕ
  pub logs : List Log
  pub late : Bool
  pub processed_through : ℕ

unfoldable pub new : ℕ → ℕ → BlockSettler
new settle released_through = record {
  settle = settle;
  pending = [];
  released_through = released_through;
}

abbrev pub unwrap_or {ℓ} : {A : Type ℓ} → A → Option A → A
unwrap_or a none = a
unwrap_or a (some b) = b

-- The block that a log is filed under.
abbrev pub block_of : ℕ → Log → ℕ
block_of released_through log = unwrap_or released_through log.block_number

-- The logs that wait for a block.
abbrev pub logs_in : Option Arrived → List Log
logs_in none = []
logs_in (some (logs, last_arrival)) = logs

unfoldable pub add_log : BlockSettler → ℕ → Log → BlockSettler
add_log s now log =
    let block = block_of s.released_through log in
    if log.removed then s else record s {
      pending =
          BTreeMap.insert block (logs_in (BTreeMap.get block s.pending) ++ (log ∷ []), now)
            s.pending;
    }

unfoldable pub add : BlockSettler → List Log → ℕ → BlockSettler
unfolding add_log
add s [] now = s
add s (log ∷ logs) now = add (add_log s now log) logs now

abbrev pub u64_max : ℕ
u64_max = 2 ^ 64 - 1

-- The key of the sort within a block.
abbrev pub place : Log → ℕ × ℕ
place log = (unwrap_or u64_max log.transaction_index, unwrap_or u64_max log.log_index)

abbrev pub placed_before : Log → Log → Bool
placed_before x y = pair_ltb (place x) (place y)

-- `take_ready`, by the pending blocks.
unfoldable pub take_first : BlockSettler → ℕ → BTreeMap Arrived → BlockSettler × Option Settled
take_first s now [] = (s, none)
take_first s now ((block, (logs, last_arrival)) ∷ later) =
    let released_through = max s.released_through block in
    if is_empty later && ltb (now - last_arrival) s.settle then (s, none) else (
      record s { pending = BTreeMap.remove block s.pending; released_through = released_through },
      some (record {
        block = block;
        logs = sort_stable placed_before logs;
        late = leb block s.released_through;
        processed_through = released_through;
      }),
    )

unfoldable pub take_ready : BlockSettler → ℕ → BlockSettler × Option Settled
unfolding take_first
take_ready s now = take_first s now s.pending

unfoldable pub deadline_of : BTreeMap Arrived → ℕ → Option ℕ
deadline_of [] settle = none
deadline_of ((block, (logs, last_arrival)) ∷ later) settle = some (last_arrival + settle)

unfoldable pub next_deadline : BlockSettler → Option ℕ
unfolding deadline_of
next_deadline s = deadline_of s.pending s.settle

-- What the source does to its settler.
pub data Call : Type 0 where
  arrive : List Log → ℕ → Call
  ask : ℕ → Call

abbrev pub handed : Option Settled → List Settled → List Settled
handed none rest = rest
handed (some settled) rest = settled ∷ rest

unfoldable pub run : BlockSettler → List Call → BlockSettler × List Settled
unfolding add take_ready
run s [] = (s, [])
run s (arrive logs now ∷ calls) = run (add s logs now) calls
run s (ask now ∷ calls) =
    let (s', taken) = take_ready s now in let (s'', rest) = run s' calls in (s'', handed taken rest)
