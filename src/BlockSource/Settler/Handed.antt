-- ===== src/BlockSource/Settler/Handed.antt =====
-- The blocks that the settler of src/collector/block_source.rs hands on, and their order.
use evm_dex_pool.Base.{
  ℕ, max, true, false, ◌&&◌, ltb, leb, ◌-◌, List, [], ◌∷◌, All, All-append, ◌≡◌, refl, ap, sym,
  subst, ◌∙◌, ◌⊎◌, inl, inr, Option, none, some, arith, Bool-cases, Option-cases,
}
use evm_dex_pool.Base.Search.{is_empty}
use evm_dex_pool.Base.Sort.{IsOrdered, sort_stable-IsOrdered, sort_stable-All}
use evm_dex_pool.BTreeMap
use evm_dex_pool.BTreeMap.{BTreeMap}
use evm_dex_pool.BTreeMap.Order.{
  insert-IsSorted, remove-IsSorted, insert-Every, remove-Every, get-Every,
}
use evm_dex_pool.Chain.{Log, pair_ltb}
use evm_dex_pool.BlockSource.Settler.{
  Arrived, BlockSettler, Settled, new, unwrap_or, place, logs_in, block_of, add_log, add,
  placed_before, take_first, take_ready, Call, arrive, ask, handed, run,
}

-- The log is one of the block, or does not say of which block it is.
abbrev IsOf : ℕ → Log → Type 0
IsOf block log = (log.block_number ≡ some block) ⊎ (log.block_number ≡ none)

abbrev AreOf : ℕ → Arrived → Type 0
AreOf block (logs, last_arrival) = All (IsOf block) logs

-- The pending blocks are a map, and each has its own logs.
pub record IsFiled (s : BlockSettler) : Type 0 where
  pub sorted : BTreeMap.IsSorted s.pending
  pub own : BTreeMap.Every AreOf s.pending

-- A block that is handed on, after blocks up to `released`: its logs are its own, in the order of
-- the chain, it is late where its number was reached before, and the cursor never falls.
pub record IsNext (released : ℕ) (x : Settled) : Type 0 where
  pub own : All (IsOf x.block) x.logs
  pub ordered : IsOrdered placed_before x.logs
  pub late_is : x.late ≡ leb x.block released
  pub through_is : x.processed_through ≡ max released x.block

abbrev pub AreNext : ℕ → List Settled → Type 0
AreNext released [] = Unit
AreNext released (x ∷ xs) = IsNext released x × AreNext x.processed_through xs

block_of-IsOf :
    (released : ℕ) (log : Log) (o : Option ℕ)
    → log.block_number ≡ o
    → IsOf (block_of released log) log
block_of-IsOf released log none e = inr e
block_of-IsOf released log (some block) e =
    inl (e ∙ ap (λ (o : Option ℕ). some (unwrap_or released o)) (sym e))

logs_in-All :
    (block : ℕ) (m : BTreeMap Arrived)
    → BTreeMap.Every AreOf m
    → All (IsOf block) (logs_in (BTreeMap.get block m))
logs_in-All block m own = elim (Option-cases (BTreeMap.get block m)) [
  | inl e ↦ rw e tt
  | inr (v, e) ↦ rw e (get-Every AreOf block v m own e)
]

add_log-IsFiled : (s : BlockSettler) (now : ℕ) (log : Log) → IsFiled s → IsFiled (add_log s now log)
unfolding add_log
add_log-IsFiled s now log f = elim (Bool-cases log.removed) [
  | inl gone ↦ simp gone f
  | inr mined ↦
      let block = block_of s.released_through log in
      simp mined (record {
        sorted = insert-IsSorted block _ s.pending f.sorted;
        own =
            insert-Every AreOf block _ s.pending
              (All-append (IsOf block) (logs_in (BTreeMap.get block s.pending)) (log ∷ [])
                (logs_in-All block s.pending f.own)
                (block_of-IsOf s.released_through log log.block_number refl, tt))
              f.own;
      })
]

add-IsFiled : (s : BlockSettler) (logs : List Log) (now : ℕ) → IsFiled s → IsFiled (add s logs now)
unfolding add
add-IsFiled s [] now f = f
add-IsFiled s (log ∷ logs) now f =
    add-IsFiled (add_log s now log) logs now (add_log-IsFiled s now log f)

pair_asym : (a b c d : ℕ) → pair_ltb (a, b) (c, d) ≡ true → pair_ltb (c, d) (a, b) ≡ false
pair_asym a b c d h = ground arith

-- What an answer of the settler is, and the settler after it.
abbrev IsAnswer : ℕ → BlockSettler × Option Settled → Type 0
IsAnswer released (s, none) = IsFiled s × (s.released_through ≡ released)
IsAnswer released (s, some x) =
    IsFiled s × (s.released_through ≡ x.processed_through) × IsNext released x

take_first-IsAnswer :
    (s : BlockSettler) (now : ℕ) (m : BTreeMap Arrived)
    → s.pending ≡ m
    → IsFiled s
    → BTreeMap.Every AreOf m
    → IsAnswer s.released_through (take_first s now m)
unfolding take_first
take_first-IsAnswer s now [] e f own = (f, refl)
take_first-IsAnswer s now ((block, (logs, last)) ∷ later) e f own =
    elim (Bool-cases (is_empty later && ltb (now - last) s.settle)) [
      | inl waits ↦ rw (waits, take_first) (f, refl)
      | inr goes ↦
          rw (goes, take_first)
            (
              record {
                sorted = remove-IsSorted block s.pending f.sorted;
                own = remove-Every AreOf block s.pending f.own;
              },
              refl,
              record {
                own = sort_stable-All placed_before (IsOf block) logs own.0;
                ordered =
                    sort_stable-IsOrdered placed_before
                      (λ x y h. pair_asym (place x).0 (place x).1 (place y).0 (place y).1 h) logs;
                late_is = refl;
                through_is = refl;
              },
            )
    ]

add_log-released :
    (s : BlockSettler) (now : ℕ) (log : Log)
    → (add_log s now log).released_through ≡ s.released_through
unfolding add_log
add_log-released s now log = ground arith

add-released :
    (s : BlockSettler) (logs : List Log) (now : ℕ)
    → (add s logs now).released_through ≡ s.released_through
unfolding add
add-released s [] now = refl
add-released s (log ∷ logs) now =
    add-released (add_log s now log) logs now ∙ add_log-released s now log

handed-AreNext :
    (released : ℕ) (s : BlockSettler) (o : Option Settled) (rest : List Settled)
    → IsAnswer released (s, o)
    → (IsFiled s → AreNext s.released_through rest)
    → AreNext released (handed o rest)
handed-AreNext released s none rest (f, same) go = subst (λ r. AreNext r rest) same (go f)
handed-AreNext released s (some x) rest (f, same, next) go =
    (next, subst (λ r. AreNext r rest) same (go f))

run-AreNext :
    (s : BlockSettler) (calls : List Call) → IsFiled s → AreNext s.released_through (run s calls).1
unfolding run take_ready
run-AreNext s [] f = tt
run-AreNext s (arrive logs now ∷ calls) f =
    subst (λ r. AreNext r (run (add s logs now) calls).1) (add-released s logs now)
      (run-AreNext (add s logs now) calls (add-IsFiled s logs now f))
run-AreNext s (ask now ∷ calls) f =
    let (s', o) = take_first s now s.pending in
    handed-AreNext s.released_through s' o (run s' calls).1
      (take_first-IsAnswer s now s.pending refl f f.own) (run-AreNext s' calls)

-- Of the blocks that a new settler hands on over any sequence of arrivals and questions, each holds
-- only logs that are its own or name no block, in the order of transaction and log index; it is
-- marked late exactly where its number was reached before, and its cursor is the greatest block
-- handed on so far.
pub run-ordered :
    (settle released_through : ℕ) (calls : List Call)
    → AreNext released_through (run (new settle released_through) calls).1
unfolding new
run-ordered settle released_through calls =
    run-AreNext (new settle released_through) calls (record { sorted = tt; own = tt })
