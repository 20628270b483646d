-- ===== src/Runner/Checks.antt =====
-- The checks of `execute_opportunity` of src/strategy/runner.rs before an entry, its placeholder, and the
-- fees that it expects.
use Prim.Native.String.{String}
use text.Mathlib.Text.{◌==◌ as same_text}
use funding_spread_arbitrage.Prelude.{
  Bool, true, false, ◌&&◌, ◌||◌, List, [], ◌∷◌, Option, none, some, if◌then◌else◌,
}
use funding_spread_arbitrage.Double.{Double, lit, ◌⊕◌, ◌⊖◌, ◌⊗◌, ◌⊘◌, ◌≺◌, ◌≼◌}
use funding_spread_arbitrage.Types.Order.{OrderSide, OrderType, OrderStatus, SimulatedOrder}
use funding_spread_arbitrage.Types.Trade.{
  ArbitrageOpportunity, TradeStatus, PaperTrade, PortfolioState,
}
use funding_spread_arbitrage.Branchless.{calculate_spread_bps}
use funding_spread_arbitrage.Entry.Sizing.{calculate_position_size}

abbrev pub is_real_trading : String → Bool
is_real_trading backend_name = same_text backend_name "Demo" || same_text backend_name "Live"

-- What the checks of an opportunity have worked out.
pub record Assessed (F : Type 0) : Type 0 where
  pub current_spread_bps : F
  pub total_fee_bps : F
  pub available_capital : F
  pub position_size : F

-- `status == Active || status == Exiting`
abbrev pub is_open : TradeStatus → Bool
is_open TradeStatus.pending = false
is_open TradeStatus.active = true
is_open TradeStatus.exiting = true
is_open TradeStatus.closed = false

module _ {F : Type 0} where
  abbrev pub occupies : String → String × PaperTrade F → Bool
  occupies symbol e = same_text e.1.symbol symbol && is_open e.1.status

  -- `iter().any(..)`
  unfoldable pub any_occupies : String → List (String × PaperTrade F) → Bool
  any_occupies symbol [] = false
  any_occupies symbol (e ∷ es) = occupies symbol e || any_occupies symbol es

module _ {F : Type 0} ⦃d : Double F⦄ where
  -- `SimulatedOrder::default()`
  abbrev default_order : SimulatedOrder F
  default_order = record {
    id = "";
    exchange = "";
    symbol = "";
    side = OrderSide.long;
    order_type = OrderType.limit;
    price = lit 0 0;
    size = lit 0 0;
    queue_position = none;
    created_at = 0;
    filled_at = none;
    fill_price = none;
    status = OrderStatus.pending;
  }

  abbrev pub placeholder_trade : ArbitrageOpportunity F → String → PaperTrade F
  placeholder_trade o id = record {
    id = id;
    symbol = o.symbol;
    long_exchange = o.long_exchange;
    short_exchange = o.short_exchange;
    entry_time = 0;
    entry_long_price = lit 0 0;
    entry_short_price = lit 0 0;
    entry_spread_bps = lit 0 0;
    position_size_usd = lit 0 0;
    funding_delta_entry = lit 0 0;
    projected_profit_usd = lit 0 0;
    actual_profit_usd = lit 0 0;
    status = TradeStatus.active;
    exit_reason = some "PLACEHOLDER";
    exit_spread_bps = none;
    exit_time = none;
    long_order = default_order;
    short_order = default_order;
    long_exit_order = none;
    short_exit_order = none;
    stop_loss_triggered = false;
    stop_loss_long_price = lit 0 0;
    stop_loss_short_price = lit 0 0;
    leg_out_event = none;
  }

  unfoldable pub get_exchange_taker_fee : (String → String) → String → F
  get_exchange_taker_fee to_lowercase exchange =
      let name = to_lowercase exchange in
      if same_text name "binance"
      then lit 4 0
      else if same_text name "okx"
      then lit 5 0
      else if same_text name "bybit"
      then lit 55 1
      else if same_text name "bitget"
      then lit 6 0
      else if same_text name "kucoin"
      then lit 6 0
      else if same_text name "hyperliquid"
      then lit 45 1
      else if same_text name "paradex"
      then lit 5 0
      else if same_text name "gateio"
      then lit 6 0
      else lit 6 0

  abbrev pub both_prices : Option F → Option F → Option (F × F)
  both_prices none bid = none
  both_prices (some ask) none = none
  both_prices (some ask) (some bid) =
      if ask ≼ lit 0 0 || bid ≼ lit 0 0 then none else some (ask, bid)

  -- The checks after the prices, and the size of the position.
  unfoldable pub assess :
      (String → String)
      → PortfolioState F
      → ArbitrageOpportunity F
      → Option (F × F)
      → Option (Assessed F)
  unfolding calculate_spread_bps get_exchange_taker_fee calculate_position_size
  assess to_lowercase portfolio o none = none
  assess to_lowercase portfolio o (some (long_price, short_price)) =
      let spread = calculate_spread_bps long_price short_price in
      let fees =
        get_exchange_taker_fee to_lowercase o.long_exchange
        ⊕ get_exchange_taker_fee to_lowercase o.short_exchange in
      let capital = portfolio.available_capital in
      let size =
        calculate_position_size spread capital fees (lit 10 0) portfolio.starting_capital in
      if spread ≼ lit 0 0
      then none
      else if (spread ⊖ fees) ≼ lit 0 0
      then none
      else if capital ≼ lit 0 0
      then none
      else if size ≼ lit 0 0 || capital ≺ size
      then none
      else some record {
        current_spread_bps = spread;
        total_fee_bps = fees;
        available_capital = capital;
        position_size = size;
      }

  -- The trade with the profit that the current prices promise.
  abbrev pub projected : Assessed F → PaperTrade F → PaperTrade F
  projected a trade = record trade {
    projected_profit_usd =
        ((a.current_spread_bps ⊗ lit 9 1 ⊖ a.total_fee_bps) ⊘ lit 10000 0) ⊗ a.position_size;
  }
