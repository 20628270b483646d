-- ===== src/Types.antt =====
-- src/strategy/types.rs: the data that the components exchange. Padding and serialisation attributes
-- have no counterpart. `u8`, `u32`, `u64`, `u128` and `usize` are natural numbers; where the code
-- computes with one, the wrap-around stands at the operation.
pub mod Market
pub mod Order
pub mod Request
pub mod Trade
pub mod TypeState
