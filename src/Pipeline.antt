-- ===== src/Pipeline.antt =====
-- The bounded queues between the threads: src/strategy/pipeline.rs (market data to the strategy, and
-- orders to the execution thread) and src/strategy/opportunity_queue.rs. All three drop the oldest
-- entry when they are full. `Backlog` states that once, over the interface `ArrayQueue`.
pub mod Backlog
pub mod Market
pub mod Execution
pub mod Opportunity
pub mod Interleaving
