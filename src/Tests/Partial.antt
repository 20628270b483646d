-- ===== src/Tests/Partial.antt =====
-- Market orders on an exchange that fills four tenths at a time, and a chase on it.
use funding_spread_arbitrage.Prelude.{◌≡◌, refl, some, ok, arith, Result}
use funding_spread_arbitrage.Double.{lit, ◌⊖◌}
use funding_spread_arbitrage.Double.Fixed.{Fixed, fixed_double}
use funding_spread_arbitrage.Types.Order.{OrderSide, OrderStatus, OrderStatusInfo, SimulatedOrder}
use funding_spread_arbitrage.Config.{ExecutionMode, preset}
use funding_spread_arbitrage.Hedge.Backend.{ExecutionBackend}
use funding_spread_arbitrage.Entry.Retry.{place_market_order_with_retry}
use funding_spread_arbitrage.Entry.Hedged.{IsReporting, Hedged, hedge_accounts}
use funding_spread_arbitrage.PriceChaser.{ChaseError, chase_until_filled}
use funding_spread_arbitrage.PriceChaser.Budget.{IsTimely}
use funding_spread_arbitrage.PriceChaser.Ends.{Chased, chase_ends}
use funding_spread_arbitrage.PriceChaser.Swift.{IsSwift}
use funding_spread_arbitrage.Tests.Exchanges.{
  Exchange, opened, fills, limits, answering, test_clock, order,
}
use funding_spread_arbitrage.Entry.Final.{Progress, complete_hedge}
use funding_spread_arbitrage.Entry.Covered.{Sized, final_size}
use funding_spread_arbitrage.Tests.Trading.{desk, chance, legs}

abbrev in_part : OrderStatusInfo Fixed
in_part = record {
  status = OrderStatus.pending;
  filled_quantity = lit 4 1;
  total_quantity = lit 1 0;
}

instance abbrev partial_exchange : ExecutionBackend Exchange Fixed
partial_exchange = answering (ok in_part)

partial-IsReporting : IsReporting fills
partial-IsReporting = record {
  places = λ o b. refl;
  answers = λ e i s b. refl;
  waits = λ n b. refl;
}

-- The third order brings the sum of the fills to the target.
partial_run :
    (place_market_order_with_retry order (lit 1 0) opened).1
    ≡ ok (record order { size = lit {F = Fixed} 12 1 })
unfolding place_market_order_with_retry
partial_run = refl

hedge_accounts_example :
    Hedged fills 3 (lit 1 0) (lit 0 0) opened (place_market_order_with_retry order (lit 1 0) opened)
hedge_accounts_example = hedge_accounts fills partial-IsReporting order (lit 1 0) opened

partial-IsTimely : IsTimely Fixed limits
partial-IsTimely = record {
  asks = λ e i b. record { later = omega arith; same = refl };
  cancels = λ e i b. record { later = omega arith; same = refl };
  bids = λ e s b. record { later = omega arith; same = refl };
  asks_price = λ e s b. record { later = omega arith; same = refl };
  places = λ o b. (omega arith, omega arith);
  waits = λ n b. (omega arith, refl);
}

-- The calls of this exchange take no time.
partial-IsSwift : IsSwift Exchange Fixed 0
partial-IsSwift = record {
  asks = λ e i b. omega arith;
  cancels = λ e i b. omega arith;
  bids = λ e s b. omega arith;
  asks_price = λ e s b. omega arith;
  places = λ o b. omega arith;
  waits = λ n b. omega arith;
}

chase_ends_example :
    (r : Exchange × Result ChaseError (SimulatedOrder Fixed)) × (chase_until_filled
        (preset ExecutionMode.safe)
        31
        order
        3000
        opened
      ≡ some r)
    × Chased limits 0 3000 3100 5 r
unfolding preset
chase_ends_example =
    chase_ends limits partial-IsTimely 0 partial-IsSwift (preset ExecutionMode.safe) order 3000 30
      opened (omega arith) (omega arith)

-- Two tenths have filled before the market orders.
abbrev progress : Progress Fixed
progress = record { total_filled = lit 2 1; legs = legs }

final_size_example :
    Sized fills OrderSide.short
      (lit {F = Fixed} 1 0 ⊖ lit 2 1)
      opened
      (complete_hedge OrderSide.long chance (lit 1 0) progress desk)
final_size_example =
    final_size fills partial-IsReporting OrderSide.long chance (lit 1 0) progress desk refl
