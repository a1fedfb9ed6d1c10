-- ===== src/Chain.antt =====
-- Logs of the chain and their places in it: the parts of alloy's `Log` that the collector reads,
-- and `LogPosition`, `log_position` and `is_at_or_after` of src/collector/block_source.rs.
use evm_dex_pool.Base.{
  ℕ, Bool, true, false, not, ◌&&◌, ltb, ◌==◌, if◌then◌else◌, Option, none, some,
}

-- What the code reads of a log; the rest of it, its data and its other topics, is `body`.
pub record Log : Type 0 where
  pub transaction_hash : Option ℕ
  pub log_index : Option ℕ
  pub block_number : Option ℕ
  pub transaction_index : Option ℕ
  pub removed : Bool
  pub block_timestamp : Option ℕ
  pub address : ℕ
  pub topic0 : Option ℕ
  pub body : ℕ

-- `(block, transaction index, log index)`
abbrev pub LogPosition : Type 0
LogPosition = ℕ × ℕ × ℕ

-- `log_position`, of the three parts; a missing one stops at the first `?`.
unfoldable pub position_of : Option ℕ → Option ℕ → Option ℕ → Option LogPosition
position_of (some block) (some transaction) (some index) = some (block, transaction, index)
position_of (some block) (some transaction) none = none
position_of (some block) none index = none
position_of none transaction index = none

unfoldable pub log_position : Log → Option LogPosition
unfolding position_of
log_position log = position_of log.block_number log.transaction_index log.log_index

-- `<` on pairs and on triples, which is lexicographic.
abbrev pub pair_ltb : ℕ × ℕ → ℕ × ℕ → Bool
pair_ltb (a, b) (c, d) = if ltb a c then true else if a == c then ltb b d else false

abbrev pub position_ltb : LogPosition → LogPosition → Bool
position_ltb (a, t, i) (c, u, j) =
    if ltb a c then true else if a == c then pair_ltb (t, i) (u, j) else false

unfoldable pub is_at_or_after : LogPosition → LogPosition → Bool
is_at_or_after position boundary = not (position_ltb position boundary)

-- `==` on positions.
abbrev pub position_eq : LogPosition → LogPosition → Bool
position_eq p q = not (position_ltb p q) && not (position_ltb q p)
