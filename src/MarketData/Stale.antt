-- ===== src/MarketData/Stale.antt =====
-- The staleness test of the store, with the wrap-around of its unsigned difference.
use funding_spread_arbitrage.Prelude.{ℕ, ◌+◌, ◌-◌, ◌^◌, ◌≤◌, ◌<◌, ◌≡◌, ◌↔◌, ◌⊎◌, true, arith}
use funding_spread_arbitrage.Double.{Double}
use funding_spread_arbitrage.MarketData.{MarketDataStore, time_at, is_stale}

-- For times below 2^64: a tracked symbol is stale when its quote is older than the threshold; a
-- quote that is stamped later than the current time has an age that wraps around, and is stale
-- unless the threshold reaches 2^64 less the lead. An untracked symbol is stale.
is_stale_iff :
    {F : Type 0} ⦃d : Double F⦄ (s : MarketDataStore F) (i now threshold : ℕ)
    → now < 2 ^ 64
    → time_at s i < 2 ^ 64
    → (is_stale s i now threshold ≡ true) ↔ (
        (s.count ≤ i)
        ⊎ (((time_at s i ≤ now) × (threshold < now - time_at s i))
            ⊎ ((now < time_at s i) × (threshold + (time_at s i - now) < 2 ^ 64))))
unfolding is_stale
is_stale_iff s i now threshold hn ht = ground arith
