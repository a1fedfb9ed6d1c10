-- ===== src/BlockSource/Websocket/Bootstrap/First.antt =====
-- The first place of a list of logs, in src/collector/block_source.rs, and the floor that it sets.
use evm_dex_pool.Base.{
  true, false, List, [], ◌∷◌, All, ◌≡◌, refl, subst, Option, none, some, arith, Bool-cases,
  Option-cases, inl, inr,
}
use evm_dex_pool.Chain.{Log, LogPosition, log_position, position_ltb, is_at_or_after}
use evm_dex_pool.BlockSource.Settler.{unwrap_or}
use evm_dex_pool.BlockSource.Websocket.{from_floor}
use evm_dex_pool.BlockSource.Websocket.Gaps.{IsFresh}
use evm_dex_pool.BlockSource.Websocket.Bootstrap.{first_position}

position_trans :
    (p q r : LogPosition)
    → position_ltb p q ≡ false
    → position_ltb q r ≡ false
    → position_ltb p r ≡ false
position_trans (a, b, c) (d, e, f) (g, h, i) pq qr = ground arith

position_asym : (p q : LogPosition) → position_ltb q p ≡ true → position_ltb p q ≡ false
position_asym (a, b, c) (d, e, f) h = ground arith

from_floor-earlier :
    (p q : LogPosition) (o : Option LogPosition)
    → position_ltb q p ≡ false
    → from_floor q o ≡ true
    → from_floor p o ≡ true
unfolding is_at_or_after
from_floor-earlier p q none h f = refl
from_floor-earlier p q (some r) h f = ground (arith, position_trans r q p)

AreFrom-earlier :
    (p q : LogPosition) (logs : List Log)
    → position_ltb q p ≡ false
    → All (IsFresh q) logs
    → All (IsFresh p) logs
AreFrom-earlier p q [] h fs = tt
AreFrom-earlier p q (log ∷ logs) h (f, fs) =
    (from_floor-earlier p q (log_position log) h f, AreFrom-earlier p q logs h fs)

position_irrefl : (p : LogPosition) → position_ltb p p ≡ false
position_irrefl (a, b, c) = ground arith

from_floor-none : (p : LogPosition) (o : Option LogPosition) → o ≡ none → from_floor p o ≡ true
from_floor-none p o e = rw e refl

from_floor-some :
    (p q : LogPosition) (o : Option LogPosition)
    → o ≡ some q
    → position_ltb q p ≡ false
    → from_floor p o ≡ true
unfolding is_at_or_after
from_floor-some p q o e h = rw e (ground (arith, h))

none_AreFrom :
    (logs : List Log) → first_position logs ≡ none → (p : LogPosition) → All (IsFresh p) logs
unfolding first_position
none_AreFrom [] e p = tt
none_AreFrom (log ∷ logs) e p = elim (Option-cases (log_position log)) [
  | inl nowhere ↦
      (from_floor-none p (log_position log) nowhere, none_AreFrom logs (ground (arith, nowhere)) p)
  | inr (q, place) ↦ absurd (ground (arith, place, Option-cases (first_position logs)))
]

-- The earliest place of a list is at or before each of its logs.
first_position-AreFrom :
    (logs : List Log) (p : LogPosition) → first_position logs ≡ some p → All (IsFresh p) logs
unfolding first_position
first_position-AreFrom [] p e = tt
first_position-AreFrom (log ∷ logs) p e = elim (Option-cases (log_position log)) [
  | inl nowhere ↦ (
    from_floor-none p (log_position log) nowhere,
    first_position-AreFrom logs p (ground (arith, nowhere)),
  )
  | inr (q, place) ↦ elim (Option-cases (first_position logs)) [
    | inl alone ↦
        let same : q ≡ p = ground (arith, place, alone) in
        subst (λ (x : LogPosition). All (IsFresh x) (log ∷ logs)) same
          (
            from_floor-some q q (log_position log) place (position_irrefl q),
            none_AreFrom logs alone q,
          )
    | inr (s, later) ↦ elim (Bool-cases (position_ltb s q)) [
      | inl sooner ↦
          let same : s ≡ p = ground (arith, place, later, sooner) in
          subst (λ (x : LogPosition). All (IsFresh x) (log ∷ logs)) same
            (
              from_floor-some s q (log_position log) place (position_asym q s sooner),
              first_position-AreFrom logs s later,
            )
      | inr first ↦
          let same : q ≡ p = ground (arith, place, later, first) in
          subst (λ (x : LogPosition). All (IsFresh x) (log ∷ logs)) same
            (
              from_floor-some q q (log_position log) place (position_irrefl q),
              AreFrom-earlier q s logs first (first_position-AreFrom logs s later),
            )
    ]
  ]
]

-- With the position that stands for it where the queue has none.
pub events-IsFresh :
    (logs : List Log) (otherwise : LogPosition)
    → All (IsFresh (unwrap_or otherwise (first_position logs))) logs
events-IsFresh logs otherwise = elim (Option-cases (first_position logs)) [
  | inl e ↦ rw e (none_AreFrom logs e otherwise)
  | inr (p, e) ↦ rw e (first_position-AreFrom logs p e)
]
