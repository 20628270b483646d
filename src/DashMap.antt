-- ===== src/DashMap.antt =====
-- The concurrent hash map of the `dashmap` crate, as the code uses it: an interface with the laws of
-- a map, and an association list that meets it.
mod Defs
pub mod Assoc
pub use Defs.{DashMap, IsMap}
