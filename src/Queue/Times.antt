-- ===== src/Queue/Times.antt =====
-- `record_block_time` of src/collector/event_queue.rs: which block times are kept.
use evm_dex_pool.Base.{
  ℕ, suc, ◌+◌, ◌-◌, ◌^◌, ◌≤◌, ◌<◌, ltb, ◌==◌, if◌then◌else◌, [], ◌∷◌, length, none, some, ◌≡◌, refl,
  subst, inl, inr, arith, Option-cases,
}
use evm_dex_pool.BTreeMap.{BTreeMap, get, insert, last_key, Every, IsSorted}
use evm_dex_pool.BTreeMap.Order.{insert-Every, insert-IsSorted, Every-imp}
use evm_dex_pool.BTreeMap.Lookup.{get-insert, get_below}
use evm_dex_pool.Uint
use evm_dex_pool.Queue.{pop_older, oldest_kept, keep_time, block_times_kept}

-- Block numbers are ascending and below the last `u64`.
pub record AreTimes (times : BTreeMap ℕ) : Type 0 where
  pub sorted : IsSorted times
  pub small : Every (λ n _. n < 2 ^ 64 - 1) times

pop_older-get :
    (oldest j : ℕ) (times : BTreeMap ℕ)
    → IsSorted times
    → get j (pop_older oldest times) ≡ (if ltb j oldest then none else get j times)
unfolding pop_older get
pop_older-get oldest j [] s = ground arith
pop_older-get oldest j ((n, t) ∷ times) s = ground (
  arith,
  pop_older-get oldest j times s.1,
  λ (h : j < n).
      get_below j times
        (Every-imp {P = λ i _. n < i} {Q = λ i _. j < i} (λ i _ l. omega arith) times s.0),
)

pop_older-IsSorted :
    (oldest : ℕ) (times : BTreeMap ℕ) → IsSorted times → IsSorted (pop_older oldest times)
unfolding pop_older
pop_older-IsSorted oldest [] s = tt
pop_older-IsSorted oldest ((n, t) ∷ times) s = ground (arith, pop_older-IsSorted oldest times s.1)

pop_older-Every :
    (P : ℕ → ℕ → Type 0) (oldest : ℕ) (times : BTreeMap ℕ)
    → Every P times
    → Every P (pop_older oldest times)
unfolding pop_older
pop_older-Every P oldest [] a = tt
pop_older-Every P oldest ((n, t) ∷ times) a = ground (arith, pop_older-Every P oldest times a.1)

pop_older-from :
    (oldest : ℕ) (times : BTreeMap ℕ)
    → IsSorted times
    → Every (λ n _. oldest ≤ n) (pop_older oldest times)
unfolding pop_older
pop_older-from oldest [] s = tt
pop_older-from oldest ((n, t) ∷ times) s = ground (
  arith,
  pop_older-from oldest times s.1,
  λ (h : oldest ≤ n).
      Every-imp {P = λ i _. n < i} {Q = λ i _. oldest ≤ i} (λ i _ l. omega arith) times s.0,
)

-- Ascending numbers in a range are no more than the range holds.
length-range :
    (lo hi : ℕ) (times : BTreeMap ℕ)
    → IsSorted times
    → lo ≤ hi
    → Every (λ n _. lo ≤ n) times
    → Every (λ n _. n < hi) times
    → lo + length times ≤ hi
length-range lo hi [] s le from below = omega arith
length-range lo hi ((n, t) ∷ times) s le from below =
    omega (
      arith,
      from.0,
      below.0,
      length-range (suc n) hi times s.1 (omega (arith, below.0)) s.0 below.1,
    )

last_key-bounds :
    (times : BTreeMap ℕ) (newest : ℕ)
    → IsSorted times
    → last_key times ≡ some newest
    → Every (λ n _. n ≤ newest) times
unfolding last_key
last_key-bounds [] newest s h = tt
last_key-bounds ((n, t) ∷ []) newest s h = ground arith
last_key-bounds ((n, t) ∷ (n', t') ∷ times) newest s h =
    let e : last_key ((n', t') ∷ times) ≡ some newest =
      ground (arith, Option-cases (last_key times)) in
    let rest = last_key-bounds ((n', t') ∷ times) newest s.1 e in
    (omega (arith, rest.0, s.0.0), rest)

-- What a recorded header leaves: the window below the newest number, of at most 64 numbers.
pub record IsKept (times : BTreeMap ℕ) (number timestamp : ℕ) (after : BTreeMap ℕ) : Type 0 where
  pub newest : ℕ
  pub newest_last : last_key (insert number timestamp times) ≡ some newest
  pub times_after : AreTimes after
  pub few : length after ≤ block_times_kept
  pub lookup :
      (j : ℕ)
      → get j after ≡ (
          if ltb (j + 63) newest then none else if j == number then some timestamp else get j times)

last_key-none : (j : ℕ) (times : BTreeMap ℕ) → last_key times ≡ none → get j times ≡ none
unfolding last_key get
last_key-none j [] h = refl
last_key-none j ((n, t) ∷ times) h = absurd (ground (arith, Option-cases (last_key times)))

last_key-Every :
    (P : ℕ → Type 0) (k : ℕ) (times : BTreeMap ℕ)
    → Every (λ n _. P n) times
    → last_key times ≡ some k
    → P k
unfolding last_key
last_key-Every P k [] a h = absurd (ground arith)
last_key-Every P k ((n, t) ∷ []) a h = subst P (ground arith) a.0
last_key-Every P k ((n, t) ∷ (n', t') ∷ times) a h =
    last_key-Every P k ((n', t') ∷ times) a.1 (ground (arith, Option-cases (last_key times)))

last_key-insert :
    (number timestamp : ℕ) (times : BTreeMap ℕ)
    → (newest : ℕ) × (last_key (insert number timestamp times) ≡ some newest)
last_key-insert number timestamp times =
    elim (Option-cases (last_key (insert number timestamp times))) [
      | inl h ↦ absurd (
          ground (
            arith,
            last_key-none number (insert number timestamp times) h,
            get-insert number number timestamp times,
          ))
      | inr (k, h) ↦ (k, h)
    ]

kept :
    (times : BTreeMap ℕ) (number timestamp newest : ℕ)
    → Every (λ n _. n < 2 ^ 64 - 1) (insert number timestamp times)
    → IsSorted (insert number timestamp times)
    → last_key (insert number timestamp times) ≡ some newest
    → IsKept times number timestamp (pop_older (newest + 1 - 64) (insert number timestamp times))
kept times number timestamp newest a s e =
    let m = insert number timestamp times in
    let oldest = newest + 1 - 64 in
    record {
      newest = newest;
      newest_last = e;
      times_after = record {
        sorted = pop_older-IsSorted oldest m s;
        small = pop_older-Every (λ n _. n < 2 ^ 64 - 1) oldest m a;
      };
      few = omega (
        arith,
        length-range oldest (suc newest) (pop_older oldest m) (pop_older-IsSorted oldest m s)
            (omega arith) (pop_older-from oldest m s)
            (pop_older-Every (λ n _. n < suc newest) oldest m
              (Every-imp {P = λ n _. n ≤ newest} {Q = λ n _. n < suc newest} (λ n _ l. omega arith)
                m (last_key-bounds m newest s e))),
      );
      lookup = λ j. ground (arith, pop_older-get oldest j m s, get-insert j number timestamp times);
    }

-- Recording the time of a block into ascending times, all numbers below the last `u64`, leaves
-- ascending times, at most 64, that know the numbers from 63 below the newest on and no others: of
-- the recorded number the recorded time, even where another was known, and of every other number
-- the time from before.
pub keep_time-IsKept :
    (times : BTreeMap ℕ) (number timestamp : ℕ)
    → AreTimes times
    → number < 2 ^ 64 - 1
    → IsKept times number timestamp (keep_time times number timestamp)
unfolding keep_time oldest_kept
keep_time-IsKept times number timestamp t small =
    let (newest, e) = last_key-insert number timestamp times in
    let a = insert-Every (λ n _. n < 2 ^ 64 - 1) number timestamp times small t.small in
    let s = insert-IsSorted number timestamp times t.sorted in
    let top : newest < 2 ^ 64 - 1 =
      last_key-Every (λ n. n < 2 ^ 64 - 1) newest (insert number timestamp times) a e in
    rw (keep_time, oldest_kept, e, Uint.add-eq 64 newest 1 (omega arith))
      (kept times number timestamp newest a s e)
