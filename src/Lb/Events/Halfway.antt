-- ===== src/Lb/Events/Halfway.antt =====
-- The pool behind the one rejection of `LBPool::apply_log` (src/lb/pool.rs) that comes after a
-- write.
use evm_dex_pool.Base.{
  ℕ, ◌^◌, ◌≤◌, ◌≡◌, refl, subst, Bool, if◌then◌else◌, Option, none, some, ok, err, Error,
  accumulator_too_large, decode_failed, ◌≢◌, arith,
}
use evm_dex_pool.Uint
use evm_dex_pool.Lb.Pool.{LbPool, update_references}
use evm_dex_pool.Lb.Events.{
  Topic, swap_topic, composition_fees_topic, deposited_topic, withdrawn_topic, static_fee_topic,
  flash_loan_topic, swap_v20_topic, deposited_v20_topic, withdrawn_v20_topic, other_topic, LbLog,
  dispatch, apply_log,
}
use evm_dex_pool.Lb.Events.Arms.{
  Applied, require, require_rule, SwapV20, BinV20, FlashLoanData, swap, composition_fees,
  change_bin, add_to, take_off, deposited_to_bins, withdrawn_from_bins, static_fee_parameters_set,
  flash_loan, swap_v20, deposited_to_bin_v20, withdrawn_from_bin_v20, log_timestamp,
}

-- The pool in which a v2.0 swap has moved the reserves, the references and the active bin, but
-- neither the accumulator nor a time.
abbrev moved_to : LbPool → Bool → ℕ → ℕ → ℕ → ℕ → LbPool
moved_to p swap_for_y id amount_in amount_out ts =
    let (vol_ref, id_ref) = update_references p ts in
    record p {
      bins =
          if swap_for_y
          then change_bin p.bins id (add_to amount_in) (take_off amount_out)
          else change_bin p.bins id (take_off amount_out) (add_to amount_in);
      volatility_reference = vol_ref;
      id_reference = id_ref;
      active_id = id;
    }

abbrev pub halfway : LbPool → SwapV20 → ℕ → LbPool
halfway p d ts = moved_to p d.swap_for_y d.id d.amount_in d.amount_out ts

-- What a rejection for the accumulator says: of which swap, and how the pool is left.
pub record IsHalfway (l : LbLog) (t : Option Topic) (p : LbPool) (log : l.Log) (now : ℕ)
    (after : LbPool) : Type 0 where
  pub topic_is : t ≡ some swap_v20_topic
  pub event : SwapV20
  pub decoded : l.swap_v20_data log ≡ some event
  pub too_large : 2 ^ 32 ≤ event.volatility_accumulated
  pub left_at : after ≡ halfway p event (log_timestamp (l.block_timestamp log) now)

narrowed : (w n m : ℕ) → Uint.try_into w n ≡ some m → n ≡ m
unfolding Uint.try_into
narrowed w n m e = ground (arith, e)

too_wide : (w n : ℕ) → Uint.try_into w n ≡ none → 2 ^ w ≤ n
unfolding Uint.try_into
too_wide w n e = ground (arith, e)

-- Where a handler fails for the accumulator, with what is known of it.
data Explained {κ} (Q : LbPool → Type κ) (a : Applied) : Type κ where
  explained : (a.1 ≡ err accumulator_too_large → Q a.0) → Explained Q a

Explained→holds {κ} :
    (Q : LbPool → Type κ) (a : Applied) → Explained Q a → a.1 ≡ err accumulator_too_large → Q a.0
Explained→holds Q a (explained f) = f

module _ {κ} (Q : LbPool → Type κ) where
  accepted : (q : LbPool) → Explained Q (q, ok tt)
  accepted q = explained (λ h. absurd (ground arith))

  other_error : (q : LbPool) (e : Error) → e ≢ accumulator_too_large → Explained Q (q, err e)
  other_error q e n = explained (λ h. absurd (n (ground arith)))

  undecoded : (q : LbPool) → Explained Q (q, err decode_failed)
  undecoded q = explained (λ h. absurd (ground arith))

  flash_loan-Explained :
      (p : LbPool) (d : FlashLoanData) (now : ℕ) → Explained Q (flash_loan p d now)
  unfolding flash_loan
  flash_loan-Explained p d now =
      require_rule (Explained Q) _ _ p _ (other_error _ _ (ground arith)) λ net_x _.
        require_rule (Explained Q) _ _ p _ (other_error _ _ (ground arith)) λ net_y _.
          require_rule (Explained Q) _ _ p _ (other_error _ _ (ground arith)) λ new_rx _.
            require_rule (Explained Q) _ _ p _ (other_error _ _ (ground arith))
              λ new_ry _. accepted _

  deposited_v20-Explained :
      (p : LbPool) (d : BinV20) (ts : ℕ) → Explained Q (deposited_to_bin_v20 p d ts)
  unfolding deposited_to_bin_v20
  deposited_v20-Explained p d ts =
      require_rule (Explained Q) _ _ p _ (other_error _ _ (ground arith)) λ id _.
        require_rule (Explained Q) _ _ p _ (other_error _ _ (ground arith)) λ x _.
          require_rule (Explained Q) _ _ p _ (other_error _ _ (ground arith)) λ y _. accepted _

  withdrawn_v20-Explained :
      (p : LbPool) (d : BinV20) (ts : ℕ) → Explained Q (withdrawn_from_bin_v20 p d ts)
  unfolding withdrawn_from_bin_v20
  withdrawn_v20-Explained p d ts =
      require_rule (Explained Q) _ _ p _ (other_error _ _ (ground arith)) λ id _.
        require_rule (Explained Q) _ _ p _ (other_error _ _ (ground arith)) λ x _.
          require_rule (Explained Q) _ _ p _ (other_error _ _ (ground arith)) λ y _. accepted _

  accumulator_last :
      (o : Option ℕ) (q : LbPool) (k : ℕ → Applied)
      → (o ≡ none → Q q)
      → ((a : ℕ) → Explained Q (k a))
      → Explained Q (require o accumulator_too_large q k)
  unfolding require
  accumulator_last none q k stop go = explained (λ h. stop refl)
  accumulator_last (some a) q k stop go = go a

  swap_v20-Explained :
      (p : LbPool) (d : SwapV20) (ts now : ℕ)
      → (2 ^ 32 ≤ d.volatility_accumulated → Q (halfway p d ts))
      → Explained Q (swap_v20 p d ts now)
  unfolding swap_v20
  swap_v20-Explained p d ts now holds =
      require_rule (Explained Q) _ _ p _ (other_error _ _ (ground arith)) λ id at.
        require_rule (Explained Q) _ _ p _ (other_error _ _ (ground arith)) λ amount_in paid.
          require_rule (Explained Q) _ _ p _ (other_error _ _ (ground arith)) λ amount_out got.
            accumulator_last _ (moved_to p d.swap_for_y id amount_in amount_out ts) _
              (λ large.
                subst (λ i. Q (moved_to p d.swap_for_y i amount_in amount_out ts))
                  (narrowed 32 d.id id at)
                  (subst (λ a. Q (moved_to p d.swap_for_y d.id a amount_out ts))
                    (narrowed 128 d.amount_in amount_in paid)
                    (subst (λ o. Q (moved_to p d.swap_for_y d.id d.amount_in o ts))
                      (narrowed 128 d.amount_out amount_out got)
                      (holds (too_wide 32 d.volatility_accumulated large)))))
              (λ acc. accepted _)

module _ (l : LbLog) (p : LbPool) where
  dispatch-Explained :
      (t : Option Topic) (log : l.Log) (now : ℕ)
      → Explained (IsHalfway l t p log now) (dispatch l t p log now)
  unfolding dispatch swap composition_fees static_fee_parameters_set deposited_to_bins
      withdrawn_from_bins
  dispatch-Explained none log now = accepted _ p
  dispatch-Explained (some swap_topic) log now =
      require_rule (Explained _) _ _ p _ (undecoded _ p) λ d e. accepted _ _
  dispatch-Explained (some composition_fees_topic) log now =
      require_rule (Explained _) _ _ p _ (undecoded _ p) λ d e. accepted _ _
  dispatch-Explained (some deposited_topic) log now =
      require_rule (Explained _) _ _ p _ (undecoded _ p) λ d e. accepted _ _
  dispatch-Explained (some withdrawn_topic) log now =
      require_rule (Explained _) _ _ p _ (undecoded _ p) λ d e. accepted _ _
  dispatch-Explained (some static_fee_topic) log now =
      require_rule (Explained _) _ _ p _ (undecoded _ p) λ d e. accepted _ _
  dispatch-Explained (some flash_loan_topic) log now =
      require_rule (Explained _) _ _ p _ (undecoded _ p) λ d e. flash_loan-Explained _ p d now
  dispatch-Explained (some swap_v20_topic) log now =
      require_rule (Explained _) _ _ p _ (undecoded _ p) λ d e.
        swap_v20-Explained (IsHalfway l (some swap_v20_topic) p log now) p d _ now (λ large.
          record { topic_is = refl; event = d; decoded = e; too_large = large; left_at = refl })
  dispatch-Explained (some deposited_v20_topic) log now =
      require_rule (Explained _) _ _ p _ (undecoded _ p) λ d e. deposited_v20-Explained _ p d _
  dispatch-Explained (some withdrawn_v20_topic) log now =
      require_rule (Explained _) _ _ p _ (undecoded _ p) λ d e. withdrawn_v20-Explained _ p d _
  dispatch-Explained (some other_topic) log now = accepted _ p

  -- Whatever the log, if `apply_log` rejects it for the size of its accumulator, then it is a v2.0
  -- swap whose decoded accumulator exceeds 32 bits, and the pool is left halfway: with the swap's
  -- reserves, references and active bin already written, and everything else, the accumulator and
  -- both times among it, as before.
  pub apply_log-IsHalfway :
      (log : l.Log) (now : ℕ)
      → (apply_log l p log now).1 ≡ err accumulator_too_large
      → IsHalfway l (l.topic0 log) p log now (apply_log l p log now).0
  unfolding apply_log
  apply_log-IsHalfway log now =
      Explained→holds (IsHalfway l (l.topic0 log) p log now) _
        (dispatch-Explained (l.topic0 log) log now)
