-- ===== src/Entry.antt =====
-- `EntryExecutor` of src/strategy/entry.rs: the size of a position, its orders, a simulated entry, the
-- market orders that hedge a leg, the emergency close, and the entry with real orders.
pub mod Sizing
pub mod Orders
pub mod Paper
pub mod Fills
pub mod Retry
pub mod Hedged
pub mod Unverified
pub mod Emergency
pub mod Closing
pub mod Desk
pub mod Hedging
pub mod Polling
pub mod Final
pub mod Real
pub mod Steady
pub mod Calls
pub mod Paired
pub mod Turns
pub mod Concluded
pub mod Sound
pub mod Ending
pub mod Timely
pub mod Stranded
pub mod Balanced
pub mod Good
pub mod Prompt
pub mod Opened
pub mod Reprices
pub mod Covered
pub mod Preflight
pub mod Asking
pub mod Prepared
