-- ===== src/BlockSource/Settler/Ready.antt =====
-- When the settler of src/collector/block_source.rs hands a block on.
use evm_dex_pool.Base.{
  ℕ, ◌+◌, ◌-◌, ◌≤◌, Bool, false, ◌&&◌, ltb, List, [], ◌∷◌, ◌≡◌, refl, ap, sym, subst, ◌∙◌, Option,
  some, arith, ==_refl,
}
use evm_dex_pool.Base.Search.{is_empty}
use evm_dex_pool.BTreeMap
use evm_dex_pool.BTreeMap.{BTreeMap}
use evm_dex_pool.Chain.{Log}
use evm_dex_pool.Registry.{keys}
use evm_dex_pool.BlockSource.Settler.{
  Arrived, BlockSettler, Settled, take_first, take_ready, Call, ask, handed, run,
}

-- Every block has been quiet for the settling time.
abbrev AreQuiet : ℕ → ℕ → BTreeMap Arrived → Type 0
AreQuiet settle now [] = Unit
AreQuiet settle now ((block, (logs, last_arrival)) ∷ later) =
    (last_arrival + settle ≤ now) × AreQuiet settle now later

-- Asked as often as there are blocks.
abbrev pub asks : ℕ → BTreeMap Arrived → List Call
asks now [] = []
asks now (x ∷ xs) = ask now ∷ asks now xs

remove_first :
    (block : ℕ) (v : Arrived) (m : BTreeMap Arrived) → BTreeMap.remove block ((block, v) ∷ m) ≡ m
unfolding BTreeMap.remove
remove_first block v m = rw (==_refl block) refl

settled_test :
    (last now settle : ℕ) (alone : Bool)
    → last + settle ≤ now
    → (alone && ltb (now - last) settle) ≡ false
settled_test last now settle alone le = ground arith

-- What is taken of a quiet block, and what stays.
taken_first :
    (s : BlockSettler) (now block last : ℕ) (logs : List Log) (later : BTreeMap Arrived)
    → last + s.settle ≤ now
    → s.pending ≡ (block, (logs, last)) ∷ later
    → let (s', o) = take_first s now ((block, (logs, last)) ∷ later) in
      (s'.pending ≡ later)
      × (s'.settle ≡ s.settle)
      × ((x : Settled) × (o ≡ some x) × (x.block ≡ block))
unfolding take_first
taken_first s now block last logs later le e =
    rw (settled_test last now s.settle (is_empty later) le)
      (ap (BTreeMap.remove block) e ∙ remove_first block (logs, last) later, refl, (_, refl, refl))

taken_ready :
    (s : BlockSettler) (now block last : ℕ) (logs : List Log) (later : BTreeMap Arrived)
    → last + s.settle ≤ now
    → s.pending ≡ (block, (logs, last)) ∷ later
    → let (s', o) = take_ready s now in
      (s'.pending ≡ later)
      × (s'.settle ≡ s.settle)
      × ((x : Settled) × (o ≡ some x) × (x.block ≡ block))
unfolding take_ready
taken_ready s now block last logs later le e =
    subst
      (λ (r : BlockSettler × Option Settled).
        (r.0.pending ≡ later)
        × (r.0.settle ≡ s.settle)
        × ((x : Settled) × (r.1 ≡ some x) × (x.block ≡ block)))
      (sym (ap (take_first s now) e)) (taken_first s now block last logs later le e)

abbrev pub blocks_of : List Settled → List ℕ
blocks_of [] = []
blocks_of (x ∷ xs) = x.block ∷ blocks_of xs

handed-blocks :
    (o : Option Settled) (x : Settled) (rest : List Settled) (block : ℕ) (ks : List ℕ)
    → o ≡ some x
    → x.block ≡ block
    → blocks_of rest ≡ ks
    → blocks_of (handed o rest) ≡ block ∷ ks
handed-blocks o x rest block ks e b r = rw (e, r, b) refl

drain :
    (m : BTreeMap Arrived) (s : BlockSettler) (now : ℕ)
    → s.pending ≡ m
    → AreQuiet s.settle now m
    → let (s', out) = run s (asks now m) in (blocks_of out ≡ keys m) × (s'.pending ≡ [])
unfolding run keys
drain [] s now e quiet = (refl, e)
drain ((block, (logs, last)) ∷ later) s now e quiet =
    let (p, q, (x, o, b)) = taken_ready s now block last logs later quiet.0 e in
    let (s', taken) = take_ready s now in
    let rest = drain later s' now p (subst (λ t. AreQuiet t now later) (sym q) quiet.1) in
    (handed-blocks taken x (run s' (asks now later)).1 block (keys later) o b rest.0, rest.1)

-- Where every pending block has been quiet for the settling time, asking the settler once for each
-- of them hands all of them on, in the order of their numbers, and leaves none.
pub drained :
    (s : BlockSettler) (now : ℕ)
    → AreQuiet s.settle now s.pending
    → let (s', out) = run s (asks now s.pending) in
      (blocks_of out ≡ keys s.pending) × (s'.pending ≡ [])
drained s now quiet = drain s.pending s now refl quiet
