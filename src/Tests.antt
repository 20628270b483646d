-- ===== src/Tests.antt =====
-- Runs of the definitions on concrete inputs.
pub mod Queues
pub mod Threads
pub mod Books
pub mod Quotes
pub mod Detection
pub mod Hedging
pub mod Exchanges
pub mod Closing
pub mod Unverified
pub mod Partial
pub mod Entries
pub mod Parsing
pub mod Estimates
pub mod Preflight
pub mod Trading
pub mod Waiting
pub mod Running
pub mod Stranded
pub mod Symbols
pub mod Limits
