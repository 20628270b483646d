-- ===== src/Tests/Entries.antt =====
-- Simulated entries, on an opportunity with deep books and on one with a shallow long book.
use Prim.Native.String.{String}
use text.Mathlib.Text.{◌==◌ as same_text}
use funding_spread_arbitrage.Prelude.{
  ◌≡◌, ◌≢◌, refl, true, false, not, ◌&&◌, [], ◌∷◌, ◌++◌, none, ok, err, is_ok,
}
use funding_spread_arbitrage.Double.{lit, ◌⊖◌, ◌≺◌, ◌≼◌}
use funding_spread_arbitrage.Double.Fixed.{Fixed, fixed_double}
use funding_spread_arbitrage.Types.Order.{OrderSide}
use funding_spread_arbitrage.Types.Trade.{ArbitrageOpportunity, PaperTrade, PortfolioState}
use funding_spread_arbitrage.Portfolio.{Redis, exceeds_capital, open_trade, new}
use funding_spread_arbitrage.Entry.Sizing.{identify_harder_leg}
use funding_spread_arbitrage.Entry.Paper.{harder_unfilled, execute_atomic_entry}
use funding_spread_arbitrage.Entry.Fills.{
  IsFilledAt, legs_fill, entry_succeeds_iff, entered_trade_opens,
}
use funding_spread_arbitrage.Tests.Exchanges.{opened, test_clock}

abbrev pub opportunity : Fixed → Fixed → ArbitrageOpportunity Fixed
opportunity long_depth short_depth = record {
  symbol = "BTCUSDT";
  long_exchange = "okx";
  short_exchange = "paradex";
  long_price = lit 100 0;
  short_price = lit 101 0;
  spread_bps = lit 100 0;
  funding_delta_8h = lit 1 3;
  confidence_score = 95;
  projected_profit_usd = lit 2 0;
  projected_profit_after_slippage = lit 1 0;
  metrics = record {
    funding_delta = lit 1 3;
    funding_delta_projected = lit 1 3;
    obi_ratio = lit 0 0;
    oi_current = lit 0 0;
    oi_24h_avg = lit 0 0;
    vwap_deviation = lit 0 0;
    atr = lit 0 0;
    atr_trend = false;
    liquidation_cluster_distance = lit 0 0;
    hard_constraints = record {
      order_book_depth_sufficient = true;
      exchange_latency_ok = true;
      funding_delta_substantial = true;
    };
  };
  order_book_depth_long = long_depth;
  order_book_depth_short = short_depth;
  timestamp = none;
}

-- Names in lower case already.
abbrev same : String → String
same name = name

-- The short leg is the harder one. Its own book is deep, but the long one decides.
shallow_long_book :
    (execute_atomic_entry same
      (opportunity (lit 100 0) (lit 5000 0))
      (lit 1000 0)
      (lit 50 0)
      opened).1
    ≡ err (harder_unfilled OrderSide.short "paradex")
unfolding execute_atomic_entry
shallow_long_book = refl

entry_succeeds_iff_example :
    is_ok
      (execute_atomic_entry same
        (opportunity (lit 100 0) (lit 5000 0))
        (lit 1000 0)
        (lit 50 0)
        opened).1
    ≡ (not (lit {F = Fixed} 50 0 ≼ lit 0 0)
        && not (lit {F = Fixed} 1000 0 ≺ lit 50 0)
        && legs_fill
            (same_text (identify_harder_leg same "okx" "paradex") "long")
            (opportunity (lit 100 0) (lit 5000 0)))
entry_succeeds_iff_example =
    entry_succeeds_iff same (opportunity (lit 100 0) (lit 5000 0)) (lit 1000 0) (lit 50 0) opened

abbrev deep : ArbitrageOpportunity Fixed
deep = opportunity (lit 1000 0) (lit 900 0)

abbrev books : PortfolioState Fixed
books = new (lit 1000 0)

abbrev redis : Redis Fixed
redis = record { logs = λ t. true; persists = λ s. true }

-- The trade that a deep opportunity is entered with.
entered :
    (t : PaperTrade Fixed) × ((execute_atomic_entry same deep books.available_capital
        (lit 50 0)
        opened).1
      ≡ ok t)
unfolding execute_atomic_entry new
entered = (_, refl)

entered_trade_opens_example :
    IsFilledAt (lit 100 0) (lit 50 0) entered.0.long_order
    × IsFilledAt (lit 101 0) (lit 50 0) entered.0.short_order
    × ((open_trade redis books entered.0).1 ≢ exceeds_capital)
    × ((open_trade redis books entered.0).0.available_capital ≡ books.available_capital ⊖ lit 50 0)
    × ((open_trade redis books entered.0).0.active_trades ≡ books.active_trades ++ entered.0 ∷ [])
entered_trade_opens_example =
    entered_trade_opens same deep books redis (lit 50 0) opened entered.0 entered.1
