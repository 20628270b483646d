-- ===== src/Tests/Hedging.antt =====
-- Locks, retries and funding on small inputs.
use funding_spread_arbitrage.Prelude.{
  ◌≤◌, ◌≡◌, List, [], ◌∷◌, none, some, ◌==◌, if◌then◌else◌, count_if,
}
use funding_spread_arbitrage.Double.{lit, neg}
use funding_spread_arbitrage.Double.Fixed.{Fixed, fixed_double}
use funding_spread_arbitrage.Hedge.Lock.{
  Locks, Reached, begun, acquired, dropped, is, try_acquire_hedge_lock, drop_lock,
  hedge_lock_exclusive,
}

-- BTCUSDT is locked, ETHUSDT was.
abbrev locked : Locks
locked = record { locks = "BTCUSDT" ∷ []; held = "BTCUSDT" ∷ [] }

locked-Reached : Reached locked
unfolding try_acquire_hedge_lock drop_lock
locked-Reached = dropped (acquired (acquired begun "BTCUSDT") "ETHUSDT") "ETHUSDT"

hedge_lock_exclusive_example :
    (count_if (is "BTCUSDT") locked.held ≤ 1)
    × ((try_acquire_hedge_lock locked "BTCUSDT").1
        ≡ (if count_if (is "BTCUSDT") locked.held == 0 then some "BTCUSDT" else none))
hedge_lock_exclusive_example = hedge_lock_exclusive locked "BTCUSDT" locked-Reached

abbrev rates : List Fixed
rates = neg (lit 1 3) ∷ lit 1 3 ∷ []
