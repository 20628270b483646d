-- ===== src/Tests/Estimates.antt =====
-- Fill estimates, depth checks, histories and simulated legs.
use funding_spread_arbitrage.Prelude.{
  All, false, ℕ, ◌≡◌, refl, not, ◌&&◌, ◌||◌, [], ◌∷◌, none, ok, err, arith, length, if◌then◌else◌,
}
use funding_spread_arbitrage.Double.{lit}
use funding_spread_arbitrage.Branchless.{should_exit_opportunity}
use funding_spread_arbitrage.Double.Fixed.{Fixed, fixed_double, Fixed-IsIeee}
use funding_spread_arbitrage.Types.Market.{PriceLevel, OrderBookDepth}
use funding_spread_arbitrage.Types.Order.{OrderSide}
use funding_spread_arbitrage.Hedge.Backend.{ExecutionBackend}
use funding_spread_arbitrage.Hedge.DualLeg.{
  Lots, Reverses, lucky, execute_dual_leg, dual_leg_reversals,
}
use funding_spread_arbitrage.FillProbability.{should_try_limit, new as new_estimator}
use funding_spread_arbitrage.FillProbability.Choice.{IsBest, is_worth, should_try_limit-IsBest}
use funding_spread_arbitrage.DepthChecker.{Cache, calculate_depth_result, check_depth_for_hedge}
use funding_spread_arbitrage.DepthChecker.Reuse.{depth_reused}
use funding_spread_arbitrage.Tests.Exchanges.{Exchange, opened, answering, test_clock}

abbrev level : ℕ → PriceLevel Fixed
level n = record { price = lit 100 0; quantity = lit n 0 }

abbrev book : OrderBookDepth Fixed
book = record {
  bids = level 1 ∷ level 2 ∷ [];
  asks = level 5 ∷ level 6 ∷ level 7 ∷ [];
  timestamp = 7;
}

-- The second level, with eleven times the order behind it, has the best chance.
second_level : (should_try_limit new_estimator book OrderSide.long (lit 100 0)).price_level ≡ 1
unfolding should_try_limit new_estimator
second_level = refl

should_try_limit-IsBest_example :
    IsBest new_estimator book OrderSide.long
      (lit 100 0)
      3
      (should_try_limit new_estimator book OrderSide.long (lit 100 0))
    × ((should_try_limit new_estimator book OrderSide.long (lit 100 0)).use_limit ≡ (
        is_worth new_estimator book OrderSide.long (lit 100 0) 0
        || is_worth new_estimator book OrderSide.long (lit 100 0) 1
        || is_worth new_estimator book OrderSide.long (lit 100 0) 2))
should_try_limit-IsBest_example =
    should_try_limit-IsBest new_estimator book OrderSide.long (lit 100 0) Fixed-IsIeee

instance abbrev booked_exchange : ExecutionBackend Exchange Fixed
booked_exchange = record (answering (err "unknown")) {
  get_order_book_depth = λ e s n b. (b, ok book);
}

abbrev nothing_kept : Cache Fixed
nothing_kept key = none

abbrev soon : Exchange
soon = record opened { now = 99 }

depth_reused_example :
    check_depth_for_hedge "okx" "BTCUSDT"
      (lit 2 0)
      (check_depth_for_hedge "okx" "BTCUSDT" (lit 1 0) nothing_kept opened).0
      soon
    ≡ (
      (check_depth_for_hedge "okx" "BTCUSDT" (lit 1 0) nothing_kept opened).0,
      soon,
      ok (calculate_depth_result "okx" "BTCUSDT" book (lit 2 0) 0),
    )
depth_reused_example =
    depth_reused "okx" "BTCUSDT" (lit 1 0) (lit 2 0) nothing_kept opened soon book refl refl
      (omega arith)

-- The short leg fails, and the reversal of the long one succeeds.
abbrev lots : Lots
lots = record { long_leg = 0; short_leg = 99; long_reversal = 100; short_reversal = 0 }

dual_leg_reversals_example :
    let r =
      execute_dual_leg "BTCUSDT" "okx" "bybit"
        (lit {F = Fixed} 100 0)
        (lit 101 0)
        (lit 1 0)
        lots
        opened in
    (r.1.both_filled ≡ (lucky lots.long_leg && lucky lots.short_leg))
    × All (Reverses "BTCUSDT" "okx" OrderSide.long (lit {F = Fixed} 100 0) (lit 1 0)) r.2
    × (length r.2 ≡ (
        if lucky lots.long_leg && not (lucky lots.short_leg) && lucky lots.long_reversal
        then 1
        else 0))
    × All (Reverses "BTCUSDT" "bybit" OrderSide.short (lit {F = Fixed} 101 0) (lit 1 0)) r.3
    × (length r.3 ≡ (
        if lucky lots.short_leg && not (lucky lots.long_leg) && lucky lots.short_reversal
        then 1
        else 0))
dual_leg_reversals_example =
    dual_leg_reversals "BTCUSDT" "okx" "bybit" (lit 100 0) (lit 101 0) (lit 1 0) lots opened

-- A spread that has widened from 10 to 13 is not left.
widened_by_thirty_percent :
    should_exit_opportunity (lit {F = Fixed} 13 0) (lit 10 0) (lit 1 2) (lit 1 2) ≡ false
unfolding should_exit_opportunity
widened_by_thirty_percent = refl
