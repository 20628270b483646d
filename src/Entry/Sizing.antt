-- ===== src/Entry/Sizing.antt =====
-- Which leg is harder to fill, and the size of a position, of src/strategy/entry.rs. `to_lowercase` is
-- Rust's.
use Prim.Native.String.{String, compare}
use text.Mathlib.Text.{◌==◌ as same_text, is_lt}
use funding_spread_arbitrage.Prelude.{ℕ, ◌||◌, ltb, if◌then◌else◌}
use funding_spread_arbitrage.Double.{Double, lit, fmin, ◌⊕◌, ◌⊗◌, ◌⊘◌, ◌≺◌}

module _ (to_lowercase : String → String) where
  unfoldable pub get_exchange_tier : String → ℕ
  get_exchange_tier exchange =
      let name = to_lowercase exchange in
      if same_text name "binance"
        || same_text name "bybit"
        || same_text name "okx"
        || same_text name "deribit"
      then 1
      else if same_text name "bitget"
          || same_text name "kucoin"
          || same_text name "gate"
          || same_text name "gateio"
          || same_text name "gate.io"
      then 2
      else 3

  unfoldable pub identify_harder_leg : String → String → String
  unfolding get_exchange_tier
  identify_harder_leg long_exchange short_exchange =
      let long_tier = get_exchange_tier long_exchange in
      let short_tier = get_exchange_tier short_exchange in
      let long_name = to_lowercase long_exchange in
      let short_name = to_lowercase short_exchange in
      if ltb short_tier long_tier
      then "long"
      else if ltb long_tier short_tier
      then "short"
      else if is_lt (compare long_name short_name)
      then "long"
      else if is_lt (compare short_name long_name)
      then "short"
      else "long"

module _ {F : Type 0} ⦃d : Double F⦄ where
  unfoldable pub calculate_position_size : F → F → F → F → F → F
  calculate_position_size spread_bps available_capital fees_bps funding_cost_bps starting_capital =
      let target_position = starting_capital ⊗ lit 10 2 in
      let position_size = fmin target_position available_capital in
      if position_size ≺ lit 10 0 then lit 0 0 else position_size

  unfoldable pub calculate_slippage : F → F → F
  calculate_slippage position_size order_book_depth =
      let base_slippage = lit 2 4 in
      let depth_ratio = position_size ⊘ order_book_depth in
      let additional_slippage = depth_ratio ⊗ lit 3 4 in
      fmin (base_slippage ⊕ additional_slippage) (lit 5 4)
