-- ===== src/Tests/Closing.antt =====
-- Market orders on an exchange that fills nothing.
use Prim.{tt}
use funding_spread_arbitrage.Prelude.{
  ◌≡◌, refl, inl, false, [], ◌++◌, ok, is_ok, replicate, true, if◌then◌else◌,
}
use funding_spread_arbitrage.Double.{lit}
use funding_spread_arbitrage.Double.Fixed.{Fixed, fixed_double}
use funding_spread_arbitrage.Types.Order.{OrderStatus, OrderStatusInfo}
use funding_spread_arbitrage.Hedge.Backend.{ExecutionBackend}
use funding_spread_arbitrage.Hedge.Placer.{IsUnfilling}
use funding_spread_arbitrage.Hedge.Copies.{IsTaking}
use funding_spread_arbitrage.Entry.Emergency.{close_order, emergency_close_position}
use funding_spread_arbitrage.Entry.Closing.{Placed, emergency_closes, unfilled_close_succeeds}
use funding_spread_arbitrage.Tests.Exchanges.{Exchange, opened, taken, answering, test_clock, order}

abbrev pending : OrderStatusInfo Fixed
pending = record {
  status = OrderStatus.pending;
  filled_quantity = lit 0 0;
  total_quantity = lit 1 0;
}

instance abbrev slow_exchange : ExecutionBackend Exchange Fixed
slow_exchange = answering (ok pending)

slow-IsUnfilling : IsUnfilling taken
slow-IsUnfilling = record {
  takes = λ b o. (o, refl);
  adds = λ b o. refl;
  asks = λ b e i s. refl;
  unfilled = λ b e i s. refl;
  waits = λ b n. refl;
}

slow-IsTaking : IsTaking taken
slow-IsTaking = record {
  takes = λ o b. inl refl;
  asks = λ e i s b. refl;
  waits = λ n b. refl;
  names = λ b. refl;
}

emergency_closes_example :
    Placed taken order 20 opened (emergency_close_position order opened false).0
    × ((emergency_close_position order opened false).1
        ≡ (if is_ok (emergency_close_position order opened false).2 then false else true))
emergency_closes_example = emergency_closes taken slow-IsTaking order opened false

unfilled_close_succeeds_example :
    ((emergency_close_position order opened false).2 ≡ ok tt)
    × ((emergency_close_position order opened false).1 ≡ false)
    × (taken (emergency_close_position order opened false).0
        ≡ replicate 10 (close_order order "u" 0) ++ [])
unfilled_close_succeeds_example =
    unfilled_close_succeeds taken slow-IsUnfilling order opened false refl
