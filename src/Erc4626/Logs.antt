-- ===== src/Erc4626/Logs.antt =====
-- Deposit and withdrawal logs of src/erc4626/standard.rs and src/erc4626/verio_ip.rs.
use evm_dex_pool.Base.{ℕ, ◌≡◌, refl, some, ok, arith, ap, ◌∙◌}
use evm_dex_pool.Uint
use evm_dex_pool.Uint.{Fits}
use evm_dex_pool.Erc4626.{
  Erc4626Standard, VaultLog, Moved, VerioIp, deposit_topic, withdraw_topic, deposited, withdrawn,
  decoded, apply_log, verio_apply_log,
}

wrap_back : (r s : ℕ) → Fits 256 r → Fits 256 s → Uint.sub 256 (Uint.add 256 r s) s ≡ r
unfolding Uint.add Uint.sub
wrap_back r s hr hs = omega arith

abbrev pub reserves : Erc4626Standard → ℕ × ℕ
reserves p = (p.vault_reserve, p.asset_reserve)

-- The handler that `VerioIP` writes out does to its base what the handler of the standard vault
-- does, with the same result.
pub verio-apply_log :
    (l : VaultLog) (v : VerioIp) (log : l.Log)
    → ((verio_apply_log l v log).0.base, (verio_apply_log l v log).1) ≡ apply_log l v.base log
unfolding verio_apply_log apply_log
verio-apply_log l v log = ground arith

apply_log_deposit :
    (l : VaultLog) (p : Erc4626Standard) (d : Moved) (log : l.Log)
    → l.topic0 log ≡ some deposit_topic
    → l.deposit log ≡ some d
    → apply_log l p log ≡ (deposited p d, ok tt)
unfolding apply_log decoded
apply_log_deposit l p d log e e' = rw (apply_log, e, e') refl

apply_log_withdraw :
    (l : VaultLog) (p : Erc4626Standard) (d : Moved) (log : l.Log)
    → l.topic0 log ≡ some withdraw_topic
    → l.withdraw log ≡ some d
    → apply_log l p log ≡ (withdrawn p d, ok tt)
unfolding apply_log decoded
apply_log_withdraw l p d log e e' = rw (apply_log, e, e') refl

-- On 256-bit reserves, applying a deposit log and then a withdrawal log of the same 256-bit amounts
-- gives back the reserves, also where the deposit wraps.
pub withdrawn-deposited :
    (l : VaultLog) (p : Erc4626Standard) (d : Moved) (first second : l.Log)
    → l.topic0 first ≡ some deposit_topic
    → l.deposit first ≡ some d
    → l.topic0 second ≡ some withdraw_topic
    → l.withdraw second ≡ some d
    → Fits 256 p.vault_reserve
    → Fits 256 p.asset_reserve
    → Fits 256 d.shares
    → Fits 256 d.assets
    → reserves (apply_log l (apply_log l p first).0 second).0 ≡ reserves p
unfolding deposited withdrawn
withdrawn-deposited l p d first second e e' e2 e2' hv ha hs hd =
    ap (λ r. reserves (apply_log l r.0 second).0) (apply_log_deposit l p d first e e')
    ∙ ap (λ r. reserves r.0) (apply_log_withdraw l (deposited p d) d second e2 e2')
    ∙ rw (wrap_back p.vault_reserve d.shares hv hs, wrap_back p.asset_reserve d.assets ha hd) refl
