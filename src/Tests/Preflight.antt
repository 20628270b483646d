-- ===== src/Tests/Preflight.antt =====
-- The checks before an entry with real orders, on the exchange of the tests.
use funding_spread_arbitrage.Prelude.{◌≡◌, refl, false, err, Leaves}
use funding_spread_arbitrage.Double.{lit}
use funding_spread_arbitrage.Double.Fixed.{Fixed, fixed_double}
use funding_spread_arbitrage.Hedge.Backend.{ExecutionBackend}
use funding_spread_arbitrage.Entry.Preflight.{preflight}
use funding_spread_arbitrage.Entry.Asking.{IsAsking}
use funding_spread_arbitrage.Entry.Prepared.{IsAdmitted, preflight-IsAdmitted}
use funding_spread_arbitrage.Tests.Exchanges.{Exchange, opened, limits, answering, test_clock}
use funding_spread_arbitrage.Tests.Entries.{opportunity}

instance abbrev ready_exchange : ExecutionBackend Exchange Fixed
ready_exchange = answering (err "unknown")

asking : IsAsking Fixed limits
asking = record {
  balances = λ e b. refl;
  steps = λ e s b. refl;
  leverage = λ e s n b. refl;
  margins = λ e s b. refl;
  depths = λ e s n b. refl;
}

-- A stand-in for `floor`, right on whole numbers.
abbrev floor : Fixed → Fixed
floor a = a

preflight-IsAdmitted_example :
    Leaves
      (λ p b'.
        IsAdmitted limits asking false
          (opportunity (lit 1000 0) (lit 900 0))
          (lit 1000 0)
          (lit 50 0)
          p
        × (limits b' ≡ limits opened))
      (λ b'. limits b' ≡ limits opened)
      (preflight floor false (opportunity (lit 1000 0) (lit 900 0)) (lit 1000 0) (lit 50 0) opened)
preflight-IsAdmitted_example =
    preflight-IsAdmitted limits asking floor false (opportunity (lit 1000 0) (lit 900 0))
      (lit 1000 0) (lit 50 0) opened
