-- ===== src/Processor/Sent.antt =====
-- Which logs src/collector/event_processor.rs sends on.
use evm_dex_pool.Base.{
  All, ℕ, Bool, true, false, ◌&&◌, ◌==◌, if◌then◌else◌, List, [], ◌∷◌, ◌++◌, ◌≡◌, refl, Option,
  none, some, arith, ok, Bool-cases, inl, inr,
}
use evm_dex_pool.Base.Search.{contains}
use evm_dex_pool.Chain.{Log}
use evm_dex_pool.Processor.{EventProcessor, is_swap, send_swap_events}
use evm_dex_pool.Processor.Groups.{logs_of, IsMined}

abbrev profitable : List ℕ → Option ℕ → Bool
profitable topics none = false
profitable topics (some t) = contains t topics

-- Whether the processor sends the log on.
abbrev chosen : EventProcessor → Log → Bool
chosen self log = self.swap_event_tx && profitable self.profitable_topics log.topic0

abbrev pub swaps_of : EventProcessor → List Log → List Log
swaps_of self [] = []
swaps_of self (log ∷ logs) =
    if chosen self log then log ∷ swaps_of self logs else swaps_of self logs

pub is_swap-chosen :
    (tx : Bool) (topics : List ℕ) (log : Log)
    → (t : ℕ) × (log.topic0 ≡ some t)
    → is_swap tx topics log ≡ ok (tx && profitable topics log.topic0)
unfolding is_swap
is_swap-chosen false topics log h = refl
is_swap-chosen true topics log (t, e) = rw e refl

pub send_swap_events-eq : (logs : List Log) → All IsMined logs → send_swap_events logs ≡ ok logs
unfolding send_swap_events
send_swap_events-eq [] hs = refl
send_swap_events-eq (log ∷ logs) (h, hs) = rw (h.0.1, h.1.1, send_swap_events-eq logs hs) refl

pub swaps_of-All :
    (self : EventProcessor) (logs : List Log) → All IsMined logs → All IsMined (swaps_of self logs)
swaps_of-All self [] hs = tt
swaps_of-All self (log ∷ logs) (h, hs) = elim (Bool-cases (chosen self log)) [
  | inl e ↦ rw e (h, swaps_of-All self logs hs)
  | inr e ↦ rw e (swaps_of-All self logs hs)
]

pub logs_of-append :
    (a : ℕ) (xs ys : List Log) → logs_of a (xs ++ ys) ≡ logs_of a xs ++ logs_of a ys
logs_of-append a [] ys = refl
logs_of-append a (x ∷ xs) ys = ground (arith, logs_of-append a xs ys)

-- What is sent of the logs of one pool is of that pool.
pub logs_of-swaps :
    (self : EventProcessor) (a b : ℕ) (logs : List Log)
    → logs_of a (swaps_of self (logs_of b logs))
      ≡ (if a == b then swaps_of self (logs_of a logs) else [])
logs_of-swaps self a b [] = ground arith
logs_of-swaps self a b (log ∷ logs) = ground (arith, logs_of-swaps self a b logs)

pub is_swap-topic :
    (topics : List ℕ) (log : Log) (t : ℕ)
    → log.topic0 ≡ some t
    → is_swap true topics log ≡ ok (contains t topics)
unfolding is_swap
is_swap-topic topics log t e = rw e refl

-- One log on the channel, or none.
pub send_one :
    (swap : Bool) (log : Log)
    → IsMined log
    → send_swap_events (if swap then log ∷ [] else []) ≡ ok (if swap then log ∷ [] else [])
send_one true log h = send_swap_events-eq (log ∷ []) (h, tt)
send_one false log h = send_swap_events-eq [] tt

pub swaps_of-cons :
    (self : EventProcessor) (log : Log) (logs : List Log) (t : ℕ)
    → self.swap_event_tx ≡ true
    → log.topic0 ≡ some t
    → swaps_of self (log ∷ logs)
      ≡ (if contains t self.profitable_topics then log ∷ [] else []) ++ swaps_of self logs
swaps_of-cons self log logs t on e = ground arith
