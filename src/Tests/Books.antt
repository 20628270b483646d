-- ===== src/Tests/Books.antt =====
-- Positions and the portfolio on one trade.
use Prim.Native.String.{String}
use funding_spread_arbitrage.Prelude.{
  ℕ, suc, ◌+◌, ◌%◌, ◌^◌, ◌≡◌, ◌≢◌, refl, true, false, List, [], ◌∷◌, none, some, length, count_if,
}
use funding_spread_arbitrage.Double.{lit, ◌⊖◌}
use funding_spread_arbitrage.Double.Fixed.{Fixed, fixed_double, Fixed-IsIeee}
use funding_spread_arbitrage.Types.Order.{OrderSide, OrderType, OrderStatus, SimulatedOrder}
use funding_spread_arbitrage.Types.Trade.{TradeStatus, PaperTrade, PortfolioState}
use funding_spread_arbitrage.Positions.{check_exit_conditions, stop_loss_unreachable}
use funding_spread_arbitrage.Portfolio.{Redis, redis_error, new, open_trade}
use funding_spread_arbitrage.Portfolio.Ledger.{
  Call, opens, closes, run, held, entered_all, is_settled, books_balance, failed_open_stays_open,
}

abbrev number : ℕ → Fixed
number n = lit n 0

abbrev order : OrderSide → SimulatedOrder Fixed
order side = record {
  id = "o";
  exchange = "okx";
  symbol = "BTCUSDT";
  side = side;
  order_type = OrderType.limit;
  price = number 100;
  size = number 1;
  queue_position = none;
  created_at = 0;
  filled_at = none;
  fill_price = none;
  status = OrderStatus.pending;
}

abbrev trade : String → PaperTrade Fixed
trade id = record {
  id = id;
  symbol = "BTCUSDT";
  long_exchange = "okx";
  short_exchange = "bybit";
  entry_time = 0;
  entry_long_price = number 100;
  entry_short_price = number 101;
  entry_spread_bps = number 100;
  position_size_usd = number 40;
  funding_delta_entry = lit 1 4;
  projected_profit_usd = number 100;
  actual_profit_usd = number 0;
  status = TradeStatus.active;
  exit_reason = none;
  exit_spread_bps = none;
  exit_time = none;
  long_order = order OrderSide.long;
  short_order = order OrderSide.short;
  long_exit_order = none;
  short_exit_order = none;
  stop_loss_triggered = false;
  stop_loss_long_price = number 0;
  stop_loss_short_price = number 0;
  leg_out_event = none;
}

-- The input of the test `test_exit_condition_stop_loss`.
wide-spread :
    check_exit_conditions (trade "a") (lit 1 4) (number 201) (number 50) ≡ some "spread_widening"
unfolding check_exit_conditions
wide-spread = refl

stop_loss_unreachable_example :
    check_exit_conditions (trade "a") (lit 1 4) (number 201) (number 50) ≢ some "stop_loss"
stop_loss_unreachable_example =
    stop_loss_unreachable Fixed-IsIeee (trade "a") (lit 1 4) (number 201) (number 50)

-- Redis, all of whose commands succeed, and one that does not keep the state.
abbrev sound : Redis Fixed
sound = record { logs = λ _. true; persists = λ _. true }

abbrev failing : Redis Fixed
failing = record { logs = λ _. true; persists = λ _. false }

abbrev day : List (Call Fixed)
day =
    opens sound (trade "a")
    ∷ opens failing (trade "b")
    ∷ opens sound (trade "c")
    ∷ closes sound "a" (number 5) "profit_target" 9
    ∷ closes sound "x" (number 1) "profit_target" 9
    ∷ []

abbrev portfolio : PortfolioState Fixed
portfolio = new (number 100)

books_balance_example :
    let s = run portfolio day in
    (held "b" s ≡ entered_all "b" portfolio day)
    × (count_if is_settled s.closed_trades ≡ length s.closed_trades)
    × ((s.win_count + s.loss_count) % 2 ^ 64 ≡ length s.closed_trades % 2 ^ 64)
books_balance_example = books_balance (number 100) day "b"

failed_open_stays_open_example :
    ((open_trade failing portfolio (trade "b")).1 ≡ redis_error)
    × (held "b" (open_trade failing portfolio (trade "b")).0 ≡ suc (held "b" portfolio))
    × ((open_trade failing portfolio (trade "b")).0.available_capital
        ≡ portfolio.available_capital ⊖ number 40)
unfolding new
failed_open_stays_open_example = failed_open_stays_open failing portfolio (trade "b") refl refl
