-- ===== src/Hedge.antt =====
-- Hedging of src/strategy/atomic_execution.rs: who may hedge a symbol, what both legs of a trade did,
-- how a market order is placed, and when negative funding ends a position.
pub mod Lock
pub mod Legs
pub mod Backend
pub mod Placer
pub mod Copies
pub mod Funding
pub mod Halt
pub mod Timing
pub mod DualLeg
