-- ===== src/V2/Events.antt =====
-- `UniswapV2Pool::apply_log` and `topics` (src/v2/pool.rs). Logs, and their decoding by the
-- bindings that `sol!` generates, are parameters.
use evm_dex_pool.Base.{
  ℕ, ◌≡◌, refl, ap, ◌∙◌, List, [], ◌∷◌, Option, none, some, Outcome, ok, err, decode_failed, arith,
}
use evm_dex_pool.V2.{V2Pool, update_reserves}

-- The signature hashes: `Sync` is declared with `uint112`s and, by other forks, with `uint256`s.
pub data V2Topic : Type 0 where
  swap_topic sync_topic sync_uint256_topic other_topic : V2Topic

-- A log as the RPC types show it, and what the bindings decode it to.
pub record V2Log : Type 1 where
  pub Log : Type 0
  pub topic0 : Log → Option V2Topic
  pub sync : Log → Option (ℕ × ℕ)
  pub sync_uint256 : Log → Option (ℕ × ℕ)

unfoldable pub topics : List V2Topic
topics = swap_topic ∷ sync_topic ∷ sync_uint256_topic ∷ []

unfoldable pub profitable_topics : List V2Topic
profitable_topics = swap_topic ∷ []

abbrev sync_to : V2Pool → Option (ℕ × ℕ) → ℕ → V2Pool × Outcome (Unit {0})
sync_to p none now = (p, err decode_failed)
sync_to p (some (reserve0, reserve1)) now = (update_reserves p reserve0 reserve1 now, ok tt)

module _ (l : V2Log) where
  open l use {Log, topic0, sync, sync_uint256}

  -- The pool that the call leaves behind, also where it fails, and its result.
  unfoldable pub apply_log : V2Pool → Log → ℕ → V2Pool × Outcome (Unit {0})
  apply_log p log now = elim (topic0 log) [
    | some sync_topic ↦ sync_to p (sync log) now
    | some sync_uint256_topic ↦ sync_to p (sync_uint256 log) now
    | some swap_topic ↦ (p, ok tt)
    | some other_topic ↦ (p, ok tt)
    | none ↦ (p, ok tt)
  ]

  -- Logs one after the other, at one clock; a failure does not stop the ones behind it.
  abbrev pub apply_logs : V2Pool → List Log → ℕ → V2Pool
  apply_logs p [] now = p
  apply_logs p (log ∷ logs) now = apply_logs (apply_log p log now).0 logs now

  -- The reserves that a log announces.
  abbrev announced : Log → Option (ℕ × ℕ)
  announced log = elim (topic0 log) [
    | some sync_topic ↦ sync log
    | some sync_uint256_topic ↦ sync_uint256 log
    | _ ↦ none
  ]

  -- The reserves that the last such log of a list announces, or the ones before it.
  abbrev last_announced : ℕ × ℕ → List Log → ℕ × ℕ
  last_announced before [] = before
  last_announced before (log ∷ logs) =
      last_announced (elim (announced log) [ none ↦ before | some after ↦ after ]) logs

  abbrev reserves_of : V2Pool → ℕ × ℕ
  reserves_of p = (p.reserve0, p.reserve1)

  abbrev tokens_of : V2Pool → ℕ × ℕ
  tokens_of p = (p.token0, p.token1)

  -- What the logs leave: the reserves, and all that no log touches.
  pub record Replayed (p : V2Pool) (logs : List Log) (q : V2Pool) : Type 0 where
    pub reserves : reserves_of q ≡ last_announced (reserves_of p) logs
    pub same_tokens : tokens_of q ≡ tokens_of p
    pub same_fee : q.fee ≡ p.fee
    pub same_type : q.pool_type ≡ p.pool_type

  apply_log-reserves :
      (p : V2Pool) (log : Log) (now : ℕ) → Replayed p (log ∷ []) (apply_log p log now).0
  unfolding apply_log update_reserves
  apply_log-reserves p log now = ground arith

  -- After any sequence of logs the pair's reserves are those that its last decodable `Sync` log of
  -- either signature announces, or the ones from before where there is none; its tokens, fee and
  -- type have not changed.
  pub apply_logs-Replayed :
      (p : V2Pool) (logs : List Log) (now : ℕ) → Replayed p logs (apply_logs p logs now)
  apply_logs-Replayed p [] now = record {
    reserves = refl;
    same_tokens = refl;
    same_fee = refl;
    same_type = refl;
  }
  apply_logs-Replayed p (log ∷ logs) now =
      let one = apply_log-reserves p log now in
      let rest = apply_logs-Replayed (apply_log p log now).0 logs now in
      record {
        reserves = rest.reserves ∙ ap (λ r. last_announced r logs) one.reserves;
        same_tokens = rest.same_tokens ∙ one.same_tokens;
        same_fee = rest.same_fee ∙ one.same_fee;
        same_type = rest.same_type ∙ one.same_type;
      }
