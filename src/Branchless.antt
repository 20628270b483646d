-- ===== src/Branchless.antt =====
-- The selections of src/strategy/branchless.rs, and `OpportunityScanner` of src/strategy/scanner.rs, which
-- passes its calls on to them. A `bool as u8` is the number 1 or 0.
pub mod Plain
use Prim.Native.String.{String}
use Prim.Native.Nat.{bit_and, bit_or}
use funding_spread_arbitrage.Prelude.{ℕ, Bool, true, false, not, Option, ◌==◌, if◌then◌else◌}
use funding_spread_arbitrage.Double.{
  Double, lit, of_nat, abs, fmin, fmax, ◌⊖◌, ◌⊗◌, ◌⊘◌, ◌≺◌, ◌≼◌, ◌≈◌,
}

abbrev pub as_bit : Bool → ℕ
as_bit true = 1
as_bit false = 0

unfoldable pub all_conditions_pass : Bool → Bool → Bool → Bool
all_conditions_pass spread_ok funding_ok depth_ok =
    bit_and (bit_and (as_bit spread_ok) (as_bit funding_ok)) (as_bit depth_ok) == 1

unfoldable pub any_condition_passes : Bool → Bool → Bool → Bool
any_condition_passes cond1 cond2 cond3 =
    not (bit_or (bit_or (as_bit cond1) (as_bit cond2)) (as_bit cond3) == 0)

module _ {F : Type 0} ⦃d : Double F⦄ where
  unfoldable pub spread_exceeds_threshold : F → F → Bool
  spread_exceeds_threshold spread threshold = threshold ≺ spread

  unfoldable pub funding_delta_substantial : F → F → Bool
  funding_delta_substantial funding_delta threshold = threshold ≺ abs funding_delta

  unfoldable pub depth_sufficient : F → F → Bool
  depth_sufficient depth threshold = threshold ≺ depth

  unfoldable pub min_f64 : F → F → F
  min_f64 a b = fmin a b

  unfoldable pub max_f64 : F → F → F
  max_f64 a b = fmax a b

  unfoldable pub clamp_f64 : F → F → F → F
  unfolding min_f64 max_f64
  clamp_f64 value min max = max_f64 min (min_f64 max value)

  unfoldable pub select_f64 : Bool → F → F → F
  select_f64 condition value_if_true value_if_false =
      if condition then value_if_true else value_if_false

  unfoldable pub is_valid_opportunity : F → F → F → F → F → F → Bool
  unfolding all_conditions_pass
  is_valid_opportunity spread_bps spread_threshold funding_delta funding_threshold depth
        depth_threshold =
      let spread_ok = spread_threshold ≺ spread_bps in
      let funding_ok = funding_threshold ≺ abs funding_delta in
      let depth_ok = depth_threshold ≺ depth in all_conditions_pass spread_ok funding_ok depth_ok

  unfoldable pub should_exit_opportunity : F → F → F → F → Bool
  unfolding any_condition_passes
  should_exit_opportunity current_spread entry_spread current_funding entry_funding =
      let spread_closed_pct =
        if lit 0 0 ≺ entry_spread
        then ((entry_spread ⊖ current_spread) ⊘ entry_spread) ⊗ lit 100 0
        else lit 0 0 in
      let spread_widened = entry_spread ⊗ lit 13 1 ≺ current_spread in
      let funding_converged =
        if lit 1 4 ≺ abs entry_funding
        then abs current_funding ≺ abs entry_funding ⊗ lit 2 1
        else false in
      let spread_closed = lit 90 0 ≼ spread_closed_pct in
      any_condition_passes spread_closed spread_widened funding_converged

  unfoldable pub abs_f64 : F → F
  abs_f64 x = abs x

  unfoldable pub sign_f64 : F → F
  sign_f64 x = of_nat (as_bit (lit 0 0 ≺ x)) ⊖ of_nat (as_bit (x ≺ lit 0 0))

  unfoldable pub calculate_spread_bps : F → F → F
  calculate_spread_bps long_price short_price =
      if long_price ≈ lit 0 0
      then lit 0 0
      else ((short_price ⊖ long_price) ⊘ long_price) ⊗ lit 10000 0
