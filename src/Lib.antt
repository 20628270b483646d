-- ===== src/Lib.antt =====
-- Verification of the core of FundingSpreadArbitrageV2, a program that watches one symbol on several
-- exchanges and trades the spread between two of them.
--
-- The path of the data. Connectors push market updates into a bounded queue (`MarketPipeline`). The
-- detector pops them, keeps the latest quote of each symbol (`MarketDataStore`, addressed by the ids of
-- `SymbolMap`), compares every pair of exchanges, and pushes what passes its filters into a second
-- queue (`OpportunityQueue`). The strategy opens and closes positions (`PositionManager`) and keeps the
-- books (`PortfolioManager`); orders leave by a third queue (`ExecutionPipeline`).
--
-- Which file models what (paths from the root of the repository):
-- - Pipeline/Market, Pipeline/Execution: src/strategy/pipeline.rs. A method of a handle is a function on
--   the pipeline that returns the new pipeline and the answer. Pipeline/Market/Metrics: the snapshot of
--   the counters. Pipeline/Backlog: the lemmas on a push with an eviction that all queues share.
-- - Pipeline/Interleaving: `MarketProducer::push` and `MarketConsumer::pop`, one atomic operation at a
--   time, as two threads run them; a schedule is a list of steps.
-- - Pipeline/Opportunity: src/strategy/opportunity_queue.rs.
-- - MarketData: src/strategy/market_data.rs. SymbolMap: src/strategy/symbol_map.rs.
-- - Detector, Detector/Check, Detector/Scan: src/strategy/opportunity_detector.rs. `run_once` is one turn
--   of the loop of `run`.
-- - SymbolMap/Threads: `get_or_insert`, one atomic operation at a time, for any number of threads.
-- - Hedge: src/strategy/atomic_execution.rs (Hedge/Lock, Hedge/Legs, Hedge/Placer, Hedge/Halt,
--   Hedge/Timing, Hedge/DualLeg, Hedge/Funding), with the trait of src/strategy/execution_backend.rs (Hedge/Backend).
-- - Entry: src/strategy/entry.rs. Entry/Sizing chooses the harder leg and the size, Entry/Orders makes
--   orders, Entry/Paper is the simulated entry, Entry/Retry hedges with market orders, and
--   Entry/Emergency closes a leg that could not be hedged.
--   Entry/Real is execute_atomic_entry_real: Entry/Preflight its checks before the first order, Entry/Desk
--   the state that it works on, Entry/Polling its loop, Entry/Hedging the hedges of the loop and Entry/Final
--   those after it. `floor` is a parameter. What the code has twice, for the long and for the short leg,
--   takes the side as an argument. Calls that `tokio::join!` runs at once run one after the other, and
--   no other entry runs meanwhile.
-- - Runner: src/strategy/runner.rs, `execute_opportunity`: Runner/Trades is its map of trades, Runner/Checks
--   what it checks before an entry; Runner/Counts and Runner/Named are lemmas.
-- - PriceChaser: src/strategy/price_chaser.rs. ExchangeParser: the prices of src/exchange_parser.rs.
--   Utils: the chunks and the backoff of src/utils.rs.
-- - Confluence: src/strategy/confluence.rs. DepthChecker: src/strategy/depth_checker.rs.
--   FillProbability: src/strategy/fill_probability.rs. PaperTrading: src/strategy/paper_trading_backend.rs,
--   a value of the trait of exchanges. Branchless: src/strategy/branchless.rs and
--   src/strategy/scanner.rs. SyntheticConfig: src/strategy/synthetic_config.rs.
-- - Config: the repricing presets of src/strategy/types.rs and the validators of
--   src/strategy/config_storage.rs. Rate: src/strategy/rate_limiter.rs, one turn of `acquire` at a time.
-- - Latency: the loop in `LatencyStats::record` of src/strategy/latency_tracker.rs that keeps the maximum.
-- - Fees: src/strategy/exchange_fees.rs. Positions: src/strategy/positions.rs. Portfolio:
--   src/strategy/portfolio.rs. Types: src/strategy/types.rs.
-- - Tests: runs of the definitions on concrete inputs.
--
-- What the model takes from outside, as arguments:
-- - ArrayQueue: crossbeam's bounded lock-free queue, by the laws of its documentation (a push fails
--   exactly when the queue is full, a pop takes the oldest value); ArrayQueue/Slots meets them.
-- - DashMap: the concurrent hash map, by the laws of a map; DashMap/Assoc meets them. The runner's map of
--   trades, of which it goes through the entries, is Runner/Trades, by the same laws on counts.
-- - Double: `f64` by its operations; theorems that order numbers take the laws `IsIeee` of IEEE 754, which
--   Double/Fixed shows can hold. Literals are decimal: `lit 55 1` is 5.5.
-- - Hedge/Backend: the exchanges, as a state that each call changes, with the clock and the source of new
--   names. Theorems that count orders or fills say what of them such a call may change.
-- - The standard parser of numbers and the powers of ten.
-- - The clock, `str::to_lowercase`, and which commands of Redis fail.
--
-- Numbers. An unsigned integer of the source is a natural number with its wrap-around written out, so
-- the counters of 64 bits are taken modulo 2^64 and ids modulo 2^32. Loops are recursion on the list or
-- the number that bounds them; the endless loop of the detector is a number of turns, and theorems about
-- it hold for every number. A chase and the chunks run on fuel: their theorems say how much is enough, for
-- a chase and an entry one turn more than the intervals that cover the timeout, for chunks one more than
-- the items.
--
-- Not modelled: logging, prefetch hints, the serialisation of the state, network clients, the terminal
-- programs; nor the rest of the runner, which watches open trades and their exits, and the readers of JSON.
pub mod Prelude
pub mod ArrayQueue
pub mod Double
pub mod Types
pub mod Pipeline
pub mod MarketData
pub mod DashMap
pub mod SymbolMap
pub mod Positions
pub mod Portfolio
pub mod Fees
pub mod Detector
pub mod Hedge
pub mod Entry
pub mod PriceChaser
pub mod ExchangeParser
pub mod Utils
pub mod FillProbability
pub mod DepthChecker
pub mod Confluence
pub mod PaperTrading
pub mod Branchless
pub mod SyntheticConfig
pub mod Config
pub mod Rate
pub mod Latency
pub mod Runner
pub mod Tests
