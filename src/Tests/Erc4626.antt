-- ===== src/Tests/Erc4626.antt =====
-- The theorems on src/erc4626 at a vault with two assets to the share.
use evm_dex_pool.Base.{◌≡◌, ◌≤◌, ◌<◌, Bool, true, false, some, ok, Returns, arith}
use evm_dex_pool.Erc4626.{
  Erc4626Standard, Moved, VaultLog, VerioIp, deposit_topic, withdraw_topic, calculate_output,
  calculate_input,
}
use evm_dex_pool.Erc4626.Quotes.{Funded, shares_for, there_and_back, input_underquotes}

abbrev vault : Erc4626Standard
vault = record {
  address = 1;
  vault_token = 10;
  asset_token = 20;
  vault_reserve = 1_000_000;
  asset_reserve = 2_000_000;
  deposit_fee = 0;
  withdraw_fee = 1_000;
}

vault-Funded : Funded vault
vault-Funded = record {
  distinct = ground arith;
  deposit_small = ground arith;
  withdraw_small = ground arith;
  vault_pos = ground arith;
  asset_pos = ground arith;
  vault_fits = ground arith;
  asset_fits = ground arith;
}

there_and_back_example :
    (calculate_output vault 20 50_000 ≡ ok (shares_for vault 50_000))
    × Returns (calculate_output vault 10 (shares_for vault 50_000)) (λ back. back ≤ 50_000)
there_and_back_example = there_and_back vault vault-Funded 50_000 (omega arith) (omega arith)

input_underquotes_example :
    Returns
      (calculate_input vault 10 10_000)
      (λ paid. Returns (calculate_output vault 20 paid) (λ shares. shares < 10_000))
input_underquotes_example =
    input_underquotes vault vault-Funded 10_000 (omega arith) (omega arith) (omega arith)

abbrev moved : Moved
moved = record { assets = 20; shares = 10 }

-- A log is a deposit or a withdrawal, by a flag.
abbrev logs : VaultLog
logs = record {
  Log = Bool;
  topic0 = λ log. elim log [ true ↦ some deposit_topic | false ↦ some withdraw_topic ];
  deposit = λ log. some moved;
  withdraw = λ log. some moved;
}

abbrev verio : VerioIp
verio = record { base = vault }
