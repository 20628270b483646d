-- ===== src/Positions.antt =====
-- `PositionManager` of src/strategy/positions.rs: when an open position is closed.
use Prim.Native.String.{String}
use text.Mathlib.Text.{◌==◌ as same_text}
use text.Mathlib.TextEquality.{eq_iff}
use funding_spread_arbitrage.Prelude.{
  ℕ, ◌≡◌, ◌≢◌, ◌↔◌, refl, Bool, true, false, not, ◌&&◌, ◌||◌, Option, none, some, ltb,
  if◌then◌else◌, arith,
}
use funding_spread_arbitrage.Double.{Double, IsIeee, lit, abs, neg, ◌⊕◌, ◌⊖◌, ◌⊗◌, ◌⊘◌, ◌≺◌, ◌≼◌}
use funding_spread_arbitrage.Types.Trade.{PaperTrade}

module _ {F : Type 0} ⦃d : Double F⦄ where
  unfoldable pub calculate_unrealized_pnl : F → F → F → F → F → F
  calculate_unrealized_pnl entry_long_price entry_short_price current_long_price current_short_price
        position_size =
      let long_pnl = ((current_long_price ⊖ entry_long_price) ⊘ entry_long_price) ⊗ position_size in
      let short_pnl =
        ((entry_short_price ⊖ current_short_price) ⊘ entry_short_price) ⊗ position_size in
      long_pnl ⊕ short_pnl

  unfoldable pub check_exit_conditions : PaperTrade F → F → F → F → Option String
  check_exit_conditions trade current_funding_delta current_spread_bps unrealized_pnl =
      if trade.projected_profit_usd ⊗ lit 9 1 ≼ unrealized_pnl
      then some "profit_target"
      else if unrealized_pnl ≼ neg trade.projected_profit_usd ⊗ lit 3 1
      then some "loss_limit"
      else if abs current_funding_delta ≺ lit 5 5
      then some "funding_convergence"
      else if trade.entry_spread_bps ⊕ lit 50 0 ≺ current_spread_bps
      then some "spread_widening"
      else if trade.entry_spread_bps ⊕ lit 100 0 ≺ current_spread_bps
      then some "stop_loss"
      else none

unfoldable pub detect_leg_out : Bool → Bool → ℕ → Bool
detect_leg_out long_filled short_filled time_since_entry_ms =
    let one_leg_filled = (long_filled && not short_filled) || (not long_filled && short_filled) in
    one_leg_filled && ltb 500 time_since_entry_ms

-- Two texts that the test tells apart are different.
texts_differ : (s t : String) → same_text s t ≡ false → some s ≢ some t
texts_differ s t h e = ground (arith, eq_iff s t)

module _ {F : Type 0} ⦃d : Double F⦄ (laws : IsIeee F) where
  -- A spread wide enough for the stop loss is wide enough for the test before it.
  stop_is_wide :
      (entry spread : F) → (entry ⊕ lit 100 0 ≺ spread) ≡ true → (entry ⊕ lit 50 0 ≺ spread) ≡ true
  stop_is_wide entry spread h =
      let top =
        (laws.num_of_le (entry ⊕ lit 100 0) spread
          (laws.le_of_lt (entry ⊕ lit 100 0) spread h)).0 in
      let entry_num = (laws.num_of_add entry (lit 100 0) top).0 in
      laws.le_lt_trans (entry ⊕ lit 50 0) (entry ⊕ lit 100 0) spread
        (laws.add_mono entry (lit 50 0) (lit 100 0) (laws.lit_mono 50 100 0 (omega arith))
          (laws.add_lit_num entry 50 0 entry_num) top)
        h

  -- Under the laws of IEEE 754 the reason "stop_loss" is never given: whenever the spread passes
  -- its limit, "spread_widening" or an earlier reason has been given already.
  pub stop_loss_unreachable :
      (trade : PaperTrade F) (funding spread pnl : F)
      → check_exit_conditions trade funding spread pnl ≢ some "stop_loss"
  unfolding check_exit_conditions
  stop_loss_unreachable trade funding spread pnl = ground (
    arith,
    stop_is_wide trade.entry_spread_bps spread,
    texts_differ "profit_target" "stop_loss" refl,
    texts_differ "loss_limit" "stop_loss" refl,
    texts_differ "funding_convergence" "stop_loss" refl,
    texts_differ "spread_widening" "stop_loss" refl,
  )

  -- Under the laws of IEEE 754 a position is held on exactly when its profit is not at or above
  -- the target, not at or below the loss limit, its funding has not converged and its spread has
  -- not widened by more than 50 basis points.
  pub holds_iff :
      (trade : PaperTrade F) (funding spread pnl : F)
      → (check_exit_conditions trade funding spread pnl ≡ none) ↔ (
          ((trade.projected_profit_usd ⊗ lit 9 1 ≼ pnl) ≡ false)
          × ((pnl ≼ neg trade.projected_profit_usd ⊗ lit 3 1) ≡ false)
          × ((abs funding ≺ lit 5 5) ≡ false)
          × ((trade.entry_spread_bps ⊕ lit 50 0 ≺ spread) ≡ false))
  unfolding check_exit_conditions
  holds_iff trade funding spread pnl = ground (arith, stop_is_wide trade.entry_spread_bps spread)
