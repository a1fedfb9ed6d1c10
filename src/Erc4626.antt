-- ===== src/Erc4626.antt =====
-- `ERC4626Standard` of src/erc4626/standard.rs and `VerioIP` of src/erc4626/verio_ip.rs, which
-- wraps one: a vault token and the asset behind it. The bindings that decode logs are a parameter.
pub mod Quotes
pub mod Logs
use evm_dex_pool.Base.{
  ℕ, Bool, true, false, ◌==◌, ◌||◌, if◌then◌else◌, List, [], ◌∷◌, Option, none, some, Outcome, ok,
  err, Error, decode_failed, not_implemented, ◌>>=◌,
}
use evm_dex_pool.Uint

abbrev pub fee_denominator : ℕ
fee_denominator = 1_000_000

pub record Erc4626Standard : Type 0 where
  pub address : ℕ
  pub vault_token : ℕ
  pub asset_token : ℕ
  pub vault_reserve : ℕ
  pub asset_reserve : ℕ
  pub deposit_fee : ℕ
  pub withdraw_fee : ℕ

unfoldable pub new :
    (address vault_token asset_token vault_reserve asset_reserve deposit_fee withdraw_fee : ℕ)
    → Erc4626Standard
new address vault_token asset_token vault_reserve asset_reserve deposit_fee withdraw_fee = record {
  address = address;
  vault_token = vault_token;
  asset_token = asset_token;
  vault_reserve = vault_reserve;
  asset_reserve = asset_reserve;
  deposit_fee = deposit_fee;
  withdraw_fee = withdraw_fee;
}

-- The tuple (fee, reserve_in, reserve_out) of a token, the same in both quotes.
unfoldable pub terms : Erc4626Standard → ℕ → ℕ × ℕ × ℕ
terms p token =
    if token == p.vault_token
    then (p.withdraw_fee, p.vault_reserve, p.asset_reserve)
    else (p.deposit_fee, p.asset_reserve, p.vault_reserve)

-- `amount * over / under * (FEE_DENOMINATOR - fee) / FEE_DENOMINATOR`
unfoldable pub converted : ℕ → ℕ → ℕ → ℕ → Outcome ℕ
converted fee amount over under = do
  q ← Uint.div (Uint.mul 256 amount over) under
  Uint.div (Uint.mul 256 q (Uint.sub 128 fee_denominator fee)) fee_denominator

unfoldable pub calculate_output : Erc4626Standard → ℕ → ℕ → Outcome ℕ
calculate_output p token_in amount_in =
    let (fee, reserve_in, reserve_out) = terms p token_in in
    if amount_in == 0
    then ok 0
    else if p.vault_reserve == 0
    then ok amount_in
    else converted fee amount_in reserve_out reserve_in

unfoldable pub calculate_input : Erc4626Standard → ℕ → ℕ → Outcome ℕ
calculate_input p token_out amount_out =
    let (fee, reserve_in, reserve_out) = terms p token_out in
    if amount_out == 0
    then ok 0
    else if p.asset_reserve == 0
    then ok amount_out
    else converted fee amount_out reserve_in reserve_out

unfoldable pub apply_swap : Erc4626Standard → ℕ → ℕ → ℕ → Erc4626Standard × Outcome (Unit {0})
apply_swap p token_in amount_in amount_out = (p, err not_implemented)

unfoldable pub tokens : Erc4626Standard → ℕ × ℕ
tokens p = (p.vault_token, p.asset_token)

unfoldable pub fee_raw : Erc4626Standard → ℕ
fee_raw p = p.deposit_fee

unfoldable pub contains_token : Erc4626Standard → ℕ → Bool
contains_token p token = token == p.vault_token || token == p.asset_token

pub data VaultTopic : Type 0 where
  deposit_topic withdraw_topic other_topic : VaultTopic

unfoldable pub topics : List VaultTopic
topics = deposit_topic ∷ withdraw_topic ∷ []

unfoldable pub profitable_topics : List VaultTopic
profitable_topics = deposit_topic ∷ withdraw_topic ∷ []

-- The amounts of a deposit or a withdrawal.
pub record Moved : Type 0 where
  pub assets : ℕ
  pub shares : ℕ

-- A log as the RPC types show it, and what the bindings decode it to.
pub record VaultLog : Type 1 where
  pub Log : Type 0
  pub topic0 : Log → Option VaultTopic
  pub deposit : Log → Option Moved
  pub withdraw : Log → Option Moved

unfoldable pub deposited : Erc4626Standard → Moved → Erc4626Standard
deposited p d = record p {
  vault_reserve = Uint.add 256 p.vault_reserve d.shares;
  asset_reserve = Uint.add 256 p.asset_reserve d.assets;
}

unfoldable pub withdrawn : Erc4626Standard → Moved → Erc4626Standard
withdrawn p d = record p {
  vault_reserve = Uint.sub 256 p.vault_reserve d.shares;
  asset_reserve = Uint.sub 256 p.asset_reserve d.assets;
}

-- The rest of an arm, once its data is decoded or not.
unfoldable pub decoded :
    Erc4626Standard
    → Option Moved
    → (Erc4626Standard → Moved → Erc4626Standard)
    → Erc4626Standard × Outcome (Unit {0})
decoded p none move = (p, err decode_failed)
decoded p (some d) move = (move p d, ok tt)

module _ (l : VaultLog) where
  open l use {Log, topic0, deposit, withdraw}

  -- The pool that the call leaves behind, also where it fails, and its result.
  unfoldable pub apply_log : Erc4626Standard → Log → Erc4626Standard × Outcome (Unit {0})
  apply_log p log = elim (topic0 log) [
    | some deposit_topic ↦ decoded p (deposit log) deposited
    | some withdraw_topic ↦ decoded p (withdraw log) withdrawn
    | some other_topic ↦ (p, ok tt)
    | none ↦ (p, ok tt)
  ]

-- `VerioIP` passes every call on to its base, but writes `apply_log` out again.
pub record VerioIp : Type 0 where
  pub base : Erc4626Standard

unfoldable pub verio_new :
    (address vault_token asset_token vault_reserve asset_reserve deposit_fee withdraw_fee : ℕ)
    → VerioIp
unfolding new
verio_new address vault_token asset_token vault_reserve asset_reserve deposit_fee withdraw_fee =
    record {
      base =
          new address vault_token asset_token vault_reserve asset_reserve deposit_fee withdraw_fee;
    }

unfoldable pub verio_output : VerioIp → ℕ → ℕ → Outcome ℕ
verio_output v token_in amount_in = calculate_output v.base token_in amount_in

unfoldable pub verio_input : VerioIp → ℕ → ℕ → Outcome ℕ
verio_input v token_out amount_out = calculate_input v.base token_out amount_out

unfoldable pub verio_apply_log : (l : VaultLog) → VerioIp → l.Log → VerioIp × Outcome (Unit {0})
verio_apply_log l v log = elim (l.topic0 log) [
  | some deposit_topic ↦
      let r = decoded v.base (l.deposit log) deposited in (record { base = r.0 }, r.1)
  | some withdraw_topic ↦
      let r = decoded v.base (l.withdraw log) withdrawn in (record { base = r.0 }, r.1)
  | some other_topic ↦ (v, ok tt)
  | none ↦ (v, ok tt)
]
