-- ===== src/Double.antt =====
-- `f64`. antt has no floating-point numbers, so the type and the operations that the code calls are
-- a parameter, `Double F`, and every component is generic in it. Theorems that need more than the
-- operations name the laws of IEEE 754 that they rest on, `IsIeee F`. `Double.Fixed` is a value
-- that meets them: decimals with six places, and a not-a-number.
mod Defs
pub mod Fixed
pub use Defs.{
  Double, IsIeee, lit, of_nat, to_uint, neg, abs, fmin, fmax, ◌⊕◌, ◌⊖◌, ◌⊗◌, ◌⊘◌, ◌≺◌, ◌≼◌, ◌≈◌,
}
