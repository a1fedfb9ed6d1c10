-- ===== src/Lb.antt =====
-- Trader Joe Liquidity Book pools (src/lb).
pub mod Math
pub mod Pool
pub mod Swap
pub mod Quote
pub mod Events
