-- ===== src/Tests/Running.antt =====
-- The runner with an opportunity, on exchanges that never fill an order.
use Prim.Native.String.{String}
use text.Mathlib.Text.{◌==◌ as same_text}
use funding_spread_arbitrage.Prelude.{
  ℕ, ◌≤◌, ◌≡◌, refl, arith, Bool, true, List, [], ◌∷◌, some, count_if, if◌then◌else◌,
}
use funding_spread_arbitrage.Double.{lit}
use funding_spread_arbitrage.Double.Fixed.{Fixed, fixed_double}
use funding_spread_arbitrage.DashMap.Assoc.{key_ℕ, key_pair, assoc_map}
use funding_spread_arbitrage.Types.Trade.{PaperTrade}
use funding_spread_arbitrage.SymbolMap.{Pair, fresh, get_or_insert}
use funding_spread_arbitrage.MarketData.{new as new_store, update}
use funding_spread_arbitrage.Portfolio.{Redis, new as new_portfolio}
use funding_spread_arbitrage.Runner.{StrategyRunner, execute_opportunity}
use funding_spread_arbitrage.Runner.Trades.{TradeMap, IsTradeMap, besides}
use funding_spread_arbitrage.Runner.OneTrade.{open_trades}
use funding_spread_arbitrage.Runner.Ends.{one_trade_per_symbol}
use funding_spread_arbitrage.Tests.Exchanges.{Exchange, test_clock}
use funding_spread_arbitrage.Tests.Trading.{desk, floor, chance}
use funding_spread_arbitrage.Tests.Waiting.{waiting_exchange, timed}

abbrev Trades : Type 0
Trades = List (String × PaperTrade Fixed)

abbrev remove : Trades → String → Trades
remove [] id = []
remove (e ∷ es) id = let rest = remove es id in if same_text e.0 id then rest else e ∷ rest

instance abbrev listed : TradeMap Trades Fixed
listed = record { entries = λ es. es; insert = λ es id t. (id, t) ∷ remove es id; remove = remove }

count_if-remove :
    (es : Trades) (id : String) (p : String × PaperTrade Fixed → Bool)
    → count_if p (remove es id) ≡ count_if (besides id p) es
count_if-remove [] id p = refl
count_if-remove (e ∷ es) id p = ground (arith, count_if-remove es id p)

listed-IsTradeMap : IsTradeMap Trades Fixed
listed-IsTradeMap = record {
  entries-remove = count_if-remove;
  entries-insert = λ es id t p. ground (arith, count_if-remove es id p);
}

abbrev redis : Redis Fixed
redis = record { logs = λ t. true; persists = λ s. true }

abbrev same : String → String
same name = name

abbrev Runner : Type 0
Runner = StrategyRunner Exchange Fixed Trades (List (Pair × ℕ)) (List (ℕ × Pair))

-- Both exchanges have quoted the symbol.
abbrev runner : Runner
runner = record {
  desk = desk;
  active_trades = [];
  portfolio = new_portfolio (lit 1000 0);
  symbol_map = (get_or_insert (get_or_insert fresh "okx" "BTCUSDT").0 "paradex" "BTCUSDT").0;
  market_data_store =
      update (update new_store 1 (lit 99 0) (lit 100 0) 1) 2 (lit 101 0) (lit 102 0) 1;
}

one_trade_per_symbol_example :
    (r' : Runner) × (execute_opportunity floor same redis chance 31 runner ≡ some r')
    × (open_trades "BTCUSDT" r' ≤ 1)
one_trade_per_symbol_example =
    one_trade_per_symbol timed floor same redis listed-IsTradeMap "BTCUSDT" chance 30 runner
      (omega arith) (omega arith)

-- The opportunity is entered.
entered :
    (r' : Runner) × (execute_opportunity floor same redis chance 31 runner ≡ some r')
    × (open_trades "BTCUSDT" r' ≡ 1)
unfolding execute_opportunity get_or_insert new_store update new_portfolio
entered = (_, refl, refl)
