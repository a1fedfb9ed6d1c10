-- ===== src/Lib.antt =====
-- A verification library for evm-dex-pool, a Rust crate that keeps the state of decentralised
-- exchange pools in memory, follows their logs and quotes swaps from that state.
--
-- The parts of the crate. Each protocol has a pool type (src/lb, src/v2, src/v3, src/erc4626) that
-- implements the traits of src/pool: it quotes swaps and applies logs. The collector
-- (src/collector) reads blocks and websocket feeds, passes logs through a queue that drops
-- duplicates, and applies them to the pools of the registry (src/registry.rs).
--
-- What is modelled here.
--   Base, Uint, BTreeMap: results of fallible calls, machine integers of a given width with their
--     wrap-around written out, and the ordered map of the standard library as a sorted list.
--   Lb/Math: src/lb/math.rs, function by function. The 20 rounds of the power are a loop on fuel 20,
--     as in the source.
--   Lb/Pool, Lb/Swap, Lb/Quote, Lb/Events: LBPool of src/lb/pool.rs. Lb/Pool has the state record
--     and the volatility functions, Lb/Swap simulate_swap_out_at and simulate_swap_in_at, Lb/Quote
--     the quotes of the pool interface, Lb/Events apply_log with one function for each arm.
--     The walk over the bins runs on fuel, one more than the number of bins: it starts at the
--     active bin and goes on to a stored bin further in its direction each time (Lb/Swap/Bounds).
--     The bindings that decode logs are generated, and are the parameter LbLog.
--   V2: UniswapV2Pool of src/v2/pool.rs with both of its curves. The search on the stable curve has
--     the 255 rounds of the source. Its bindings are the parameter V2Log.
--   Erc4626: ERC4626Standard of src/erc4626/standard.rs and VerioIP of src/erc4626/verio_ip.rs. Their
--     bindings are the parameter VaultLog.
--   V3: the helpers of src/v3/liquidity_math.rs and src/v3/unsafe_math.rs. V3/Pool: UniswapV3Pool of
--     src/v3/pool.rs with the ticks of src/v3/tick.rs, and its mints, burns, swap events and window of
--     mispriced swaps. An i32 tick t is the number t + 2^31.
--   Chain, Timestamps: the logs, their place in the chain (src/collector/block_source.rs) and the
--     block times that they are given (src/collector/utils.rs).
--   Registry: PoolRegistry of src/registry.rs, over pools known by an interface of four operations,
--     PoolInterface. A lock is a step, and a concurrent map is an ordered one.
--   Processor: EventProcessor of src/collector/event_processor.rs.
--   BlockSource: src/collector/block_source.rs. BlockSource/Batches has the ranges of blocks, whose
--     loops run on fuel that is enough for one block at a time, BlockSource/Polling the two sources
--     that poll, one turn of their loop at a time, BlockSource/Settler the settler of the websocket
--     mode, and BlockSource/Websocket its source, with the gap fill and the bootstrap. What the RPC node answers in a turn is the parameter Answers.
--   Updater: UnifiedPoolUpdater of src/collector/unified_pool_updater.rs over a block source. A
--     source is an interface, BlockSource, whose laws are Updater/Contract; the updater is
--     verified against the laws, and the two polling sources fill them (Updater/Sources).
--   Queue: EventQueue and EventSender of src/collector/event_queue.rs. Hash map, order queue, block
--     times and gaps are one record; a history of the queue is a list of calls. The channel of tokio
--     is the list of what was sent and a flag for its being open.
--   Tests: concrete pools, pairs, vaults, queues, registries and answers.
--
-- Conventions. Values are natural numbers with their bounds as hypotheses (Fits w). Functions that
-- read the wall clock take it as an argument. Arithmetic that Rust checks in a debug build and wraps
-- in a release build wraps here; conversions that panic in both (alloy's `to`, a division by zero)
-- give the result `panic`.
--
-- What is not modelled: text output, floating point, metrics, the RPC and websocket input and
-- output, the generated contract bindings and the tables of factories. Nor are the swap, the
-- search for ticks and the decoding of logs of the V3 pools, the fee reader and the handle of the
-- collector.
pub mod Base
pub mod Uint
pub mod BTreeMap
pub mod Lb
pub mod V2
pub mod V3
pub mod Erc4626
pub mod Chain
pub mod Timestamps
pub mod Registry
pub mod Processor
pub mod BlockSource
pub mod Updater
pub mod Queue
pub mod Tests
