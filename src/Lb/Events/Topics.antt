-- ===== src/Lb/Events/Topics.antt =====
-- The topic lists of `LBPool` (src/lb/pool.rs): what is subscribed to, and what calls for a search.
use evm_dex_pool.Base.{
  ℕ, ◌≡◌, refl, Bool, true, false, if◌then◌else◌, List, [], ◌∷◌, some, ok, arith,
}
use evm_dex_pool.Lb.Pool.{LbPool}
use evm_dex_pool.Lb.Events.{
  Topic, swap_topic, composition_fees_topic, deposited_topic, withdrawn_topic, static_fee_topic,
  flash_loan_topic, swap_v20_topic, deposited_v20_topic, withdrawn_v20_topic, other_topic, LbLog,
  dispatch, apply_log,
}

unfoldable pub topics : List Topic
topics =
    swap_topic ∷ deposited_topic ∷ withdrawn_topic ∷ static_fee_topic ∷ flash_loan_topic
    ∷ composition_fees_topic ∷ swap_v20_topic ∷ deposited_v20_topic ∷ withdrawn_v20_topic ∷ []

unfoldable pub profitable_topics : List Topic
profitable_topics = swap_topic ∷ swap_v20_topic ∷ []

-- Equality of the signature hashes.
abbrev pub same : Topic → Topic → Bool
same swap_topic swap_topic = true
same composition_fees_topic composition_fees_topic = true
same deposited_topic deposited_topic = true
same withdrawn_topic withdrawn_topic = true
same static_fee_topic static_fee_topic = true
same flash_loan_topic flash_loan_topic = true
same swap_v20_topic swap_v20_topic = true
same deposited_v20_topic deposited_v20_topic = true
same withdrawn_v20_topic withdrawn_v20_topic = true
same other_topic other_topic = true
same _ _ = false

abbrev listed : Topic → List Topic → Bool
listed t [] = false
listed t (u ∷ us) = if same t u then true else listed t us

dispatch_unlisted :
    (l : LbLog) (p : LbPool) (log : l.Log) (t : Topic) (now : ℕ)
    → listed t topics ≡ false
    → dispatch l (some t) p log now ≡ (p, ok tt)
unfolding topics dispatch
dispatch_unlisted l p log swap_topic now out = absurd (ground arith)
dispatch_unlisted l p log composition_fees_topic now out = absurd (ground arith)
dispatch_unlisted l p log deposited_topic now out = absurd (ground arith)
dispatch_unlisted l p log withdrawn_topic now out = absurd (ground arith)
dispatch_unlisted l p log static_fee_topic now out = absurd (ground arith)
dispatch_unlisted l p log flash_loan_topic now out = absurd (ground arith)
dispatch_unlisted l p log swap_v20_topic now out = absurd (ground arith)
dispatch_unlisted l p log deposited_v20_topic now out = absurd (ground arith)
dispatch_unlisted l p log withdrawn_v20_topic now out = absurd (ground arith)
dispatch_unlisted l p log other_topic now out = refl

-- A log whose topic is not in the topic list changes nothing and is accepted: every event that has
-- an arm is subscribed to.
pub apply_log_unlisted :
    (l : LbLog) (p : LbPool) (log : l.Log) (t : Topic) (now : ℕ)
    → l.topic0 log ≡ some t
    → listed t topics ≡ false
    → apply_log l p log now ≡ (p, ok tt)
unfolding apply_log
apply_log_unlisted l p log t now e out = rw (apply_log, e) (dispatch_unlisted l p log t now out)
