-- ===== src/Registry.antt =====
-- `PoolRegistry` of src/registry.rs, over pools that are known by an interface. Its concurrent
-- maps are ordered maps here, so that a list of their addresses or pools comes in one of the
-- orders that it can have. The locks of a single pool and of the topics are never contended in
-- the model, and the clone that shares the maps is the registry itself.
pub mod Tracking
pub mod Topics
use evm_dex_pool.Base.{
  ℕ, Bool, true, false, if◌then◌else◌, List, [], ◌∷◌, ◌++◌, Option, none, some, Error,
}
use evm_dex_pool.BTreeMap
use evm_dex_pool.BTreeMap.{BTreeMap}
use evm_dex_pool.Chain.{Log}
use evm_dex_pool.Base.Search.{contains}

pub data Erc4626Pool : Type 0 where
  verio_ip : Erc4626Pool

pub data PoolType : Type 0 where
  uniswap_v2 uniswap_v3 trader_joe_lb : PoolType
  erc4626 : Erc4626Pool → PoolType

-- `==` of pool types
abbrev type_eq : PoolType → PoolType → Bool
type_eq uniswap_v2 uniswap_v2 = true
type_eq uniswap_v3 uniswap_v3 = true
type_eq (erc4626 verio_ip) (erc4626 verio_ip) = true
type_eq trader_joe_lb trader_joe_lb = true
type_eq _ _ = false

-- What the collector calls of a pool. `fee_needs_reading` is false for a pool that is not of V3.
-- `apply_log` gives the pool that the log leaves, and the error it returned.
pub record PoolInterface (P : Type 0) : Type 0 where
  pub address : P → ℕ
  pub pool_type : P → PoolType
  pub fee_needs_reading : P → Bool
  pub apply_log : P → Log → P × Option Error

pub record PoolRegistry (P : Type 0) : Type 0 where
  pub by_address : BTreeMap P
  pub dynamic_fee_addresses : BTreeMap (Unit {0})
  pub last_processed_block : ℕ
  pub topics : List ℕ
  pub profitable_topics : List ℕ
  pub network_id : ℕ

unfoldable pub add_new_topics : List ℕ → List ℕ → List ℕ
add_new_topics known [] = known
add_new_topics known (topic ∷ topics) =
    add_new_topics (if contains topic known then known else known ++ (topic ∷ [])) topics

unfoldable pub keys {ℓ} : {V : Type ℓ} → BTreeMap V → List ℕ
keys [] = []
keys ((k, v) ∷ m) = k ∷ keys m

module _ {P : Type 0} where
  unfoldable pub new : ℕ → PoolRegistry P
  new network_id = record {
    by_address = [];
    dynamic_fee_addresses = [];
    last_processed_block = 0;
    topics = [];
    profitable_topics = [];
    network_id = network_id;
  }

  unfoldable pub add_dynamic_fee_address : PoolRegistry P → ℕ → PoolRegistry P
  add_dynamic_fee_address r address = record r {
    dynamic_fee_addresses = BTreeMap.insert address tt r.dynamic_fee_addresses;
  }

  unfoldable pub remove_dynamic_fee_address : PoolRegistry P → ℕ → PoolRegistry P
  remove_dynamic_fee_address r address = record r {
    dynamic_fee_addresses = BTreeMap.remove address r.dynamic_fee_addresses;
  }

  unfoldable pub get_pool : PoolRegistry P → ℕ → Option P
  get_pool r address = BTreeMap.get address r.by_address

  unfoldable pub is_dynamic_fee_address : PoolRegistry P → ℕ → Bool
  is_dynamic_fee_address r address = elim (BTreeMap.get address r.dynamic_fee_addresses) [
    | none ↦ false
    | some _ ↦ true
  ]

  -- The entry of the pool, whatever was tracked before.
  unfoldable pub store : PoolRegistry P → ℕ → P → PoolRegistry P
  store r address pool = record r { by_address = BTreeMap.insert address pool r.by_address }

  unfoldable pub remove_pool : PoolRegistry P → ℕ → PoolRegistry P × Option P
  unfolding remove_dynamic_fee_address
  remove_pool r address =
      let rest = record r { by_address = BTreeMap.remove address r.by_address } in
      elim (BTreeMap.get address r.by_address) [
        | none ↦ (r, none)
        | some pool ↦ (remove_dynamic_fee_address rest address, some pool)
      ]

  unfoldable pub get_all_addresses : PoolRegistry P → List ℕ
  unfolding keys
  get_all_addresses r = keys r.by_address

  unfoldable pub set_last_processed_block : PoolRegistry P → ℕ → PoolRegistry P
  set_last_processed_block r block = record r { last_processed_block = block }

  unfoldable pub add_topics : PoolRegistry P → List ℕ → PoolRegistry P
  unfolding add_new_topics
  add_topics r topics = record r { topics = add_new_topics r.topics topics }

  unfoldable pub add_profitable_topics : PoolRegistry P → List ℕ → PoolRegistry P
  add_profitable_topics r topics = record r { profitable_topics = r.profitable_topics ++ topics }

module _ {P : Type 0} (pools : PoolInterface P) where
  unfoldable pub add_pool : PoolRegistry P → P → PoolRegistry P
  unfolding store add_dynamic_fee_address
  add_pool r pool =
      let address = pools.address pool in
      store (if pools.fee_needs_reading pool then add_dynamic_fee_address r address else r) address
        pool

  unfoldable pub addresses_of_type : PoolType → BTreeMap P → List ℕ
  addresses_of_type type [] = []
  addresses_of_type type ((address, pool) ∷ m) =
      let rest = addresses_of_type type m in
      if type_eq (pools.pool_type pool) type then address ∷ rest else rest

  unfoldable pub get_addresses_by_type : PoolRegistry P → PoolType → List ℕ
  unfolding addresses_of_type
  get_addresses_by_type r type = addresses_of_type type r.by_address
