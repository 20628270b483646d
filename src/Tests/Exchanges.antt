-- ===== src/Tests/Exchanges.antt =====
-- An exchange for tests: it takes every order, gives every question about one the same answer, and has
-- a clock that only its sleeps move.
use Prim.{tt}
use Prim.Native.String.{String}
use funding_spread_arbitrage.Prelude.{
  ℕ, suc, ◌+◌, true, List, [], ◌∷◌, ◌++◌, none, Result, ok, err, Action,
}
use funding_spread_arbitrage.Double.{lit}
use funding_spread_arbitrage.Double.Fixed.{Fixed, fixed_double}
use funding_spread_arbitrage.Types.Order.{
  OrderSide, OrderType, OrderStatus, OrderStatusInfo, SimulatedOrder,
}
use funding_spread_arbitrage.Hedge.Backend.{ExecutionBackend, Clock}

-- `orders` are the market orders taken, newest first, `reported` the fills reported, oldest first,
-- and `placed` counts the limit orders.
pub record Exchange : Type 0 where
  pub orders : List (SimulatedOrder Fixed)
  pub reported : List Fixed
  pub placed : ℕ
  pub now : ℕ

abbrev pub opened : Exchange
opened = record { orders = []; reported = []; placed = 0; now = 0 }

abbrev pub taken : Exchange → List (SimulatedOrder Fixed)
taken b = b.orders

abbrev pub fills : Exchange → List Fixed
fills b = b.reported

abbrev pub limits : Exchange → ℕ
limits b = b.placed

abbrev filled_by : Result String (OrderStatusInfo Fixed) → List Fixed
filled_by (ok info) = info.filled_quantity ∷ []
filled_by (err e) = []

abbrev answer : {A : Type 0} → A → Action Exchange String A
answer a b = (b, ok a)

-- The exchange with one answer to every question about an order.
abbrev pub answering : Result String (OrderStatusInfo Fixed) → ExecutionBackend Exchange Fixed
answering info = record {
  set_leverage = λ e s n. answer tt;
  set_margin_type_isolated = λ e s. answer tt;
  place_order = λ o b. (record b { placed = suc b.placed }, ok o);
  place_market_order = λ o b. (record b { orders = o ∷ b.orders }, ok o);
  cancel_order = λ e i. answer tt;
  get_order_status = λ e i. answer OrderStatus.pending;
  get_order_status_detailed =
      λ e i s b. (record b { reported = b.reported ++ filled_by info }, info);
  get_available_balance = λ e. answer (lit 1000 0);
  get_all_balances = answer [];
  is_symbol_tradeable = λ e s. answer true;
  get_order_book_depth = λ e s n. answer record { bids = []; asks = []; timestamp = 0 };
  get_best_bid = λ e s. answer (lit 101 0);
  get_best_ask = λ e s. answer (lit 102 0);
  backend_name = "test";
  get_quantity_step = λ e s. answer (lit 1 3);
}

instance abbrev pub test_clock : Clock Exchange
test_clock = record {
  instant = λ b. b.now;
  unix_secs = λ b. 0;
  sleep = λ n b. record b { now = b.now + n };
  new_uuid = λ b. (b, "u");
}

abbrev pub order : SimulatedOrder Fixed
order = record {
  id = "o";
  exchange = "okx";
  symbol = "BTCUSDT";
  side = OrderSide.short;
  order_type = OrderType.market;
  price = lit 100 0;
  size = lit 1 0;
  queue_position = none;
  created_at = 0;
  filled_at = none;
  fill_price = none;
  status = OrderStatus.pending;
}
