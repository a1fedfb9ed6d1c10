-- ===== src/Tests.antt =====
-- Concrete inputs: a Liquidity Book pool, pairs, vaults and event queues, and the theorems applied to them.
pub mod Fixtures
pub mod Lb
pub mod LbEvents
pub mod V2
pub mod V3
pub mod Queue
pub mod Collector
pub mod Websocket
pub mod Erc4626
