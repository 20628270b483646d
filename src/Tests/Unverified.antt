-- ===== src/Tests/Unverified.antt =====
-- Market orders on an exchange that cannot be asked about them.
use funding_spread_arbitrage.Prelude.{◌≡◌, refl, false, [], ◌++◌, err, is_ok, replicate}
use funding_spread_arbitrage.Double.{lit, ◌⊖◌}
use funding_spread_arbitrage.Double.Fixed.{Fixed, fixed_double}
use funding_spread_arbitrage.Hedge.Backend.{ExecutionBackend}
use funding_spread_arbitrage.Entry.Retry.{place_market_order_with_retry}
use funding_spread_arbitrage.Entry.Unverified.{IsUnverifying, unverified_orders_pile_up}
use funding_spread_arbitrage.Tests.Exchanges.{Exchange, opened, taken, answering, test_clock, order}

instance abbrev mute_exchange : ExecutionBackend Exchange Fixed
mute_exchange = answering (err "timeout")

mute-IsUnverifying : IsUnverifying taken
mute-IsUnverifying = record {
  takes = λ o b. (o, refl);
  adds = λ o b. refl;
  refuses = λ e i s b. ("timeout", refl);
  asks = λ e i s b. refl;
  waits = λ n b. refl;
}

unverified_orders_pile_up_example :
    (taken (place_market_order_with_retry order (lit 1 0) opened).0
      ≡ replicate 3 (record order { size = lit {F = Fixed} 1 0 ⊖ lit 0 0 }) ++ [])
    × (is_ok (place_market_order_with_retry order (lit 1 0) opened).1 ≡ false)
unverified_orders_pile_up_example =
    unverified_orders_pile_up taken mute-IsUnverifying order (lit 1 0) opened refl
