-- ===== src/ArrayQueue.antt =====
-- crossbeam_queue::ArrayQueue, which the pipelines stand on: a bounded FIFO whose `push` hands the
-- value back when the queue is full. The crate is not part of the repository, so the queue is a
-- parameter: its operations, and the behaviour that its documentation states.
mod Defs
pub mod Slots
pub use Defs.{ArrayQueue, IsFifo}
