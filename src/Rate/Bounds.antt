-- ===== src/Rate/Bounds.antt =====
-- How many requests `RateLimiter` of src/strategy/rate_limiter.rs grants.
use funding_spread_arbitrage.Prelude.{ℕ, ◌+◌, ◌-◌, ◌*◌, ◌^◌, ◌≤◌, ◌≡◌}
use funding_spread_arbitrage.Double.{Double}
use funding_spread_arbitrage.Rate.{RateLimiter, granted}

-- What a turn keeps: the tokens held, and those granted in it, have been held before or have come
-- with the time since the last refill.
record Spends (end : ℕ) (s s' : RateLimiter) (granted : ℕ) : Type 0 where
  burst : s'.burst_capacity ≡ s.burst_capacity
  rate : s'.requests_per_second ≡ s.requests_per_second
  within : s'.tokens ≤ s.burst_capacity
  earlier : s.last_refill ≤ s'.last_refill
  past : s'.last_refill ≤ end
  spent :
      (s'.tokens + granted) * 10 ^ 9 + (end - s'.last_refill) * s.requests_per_second
      ≤ s.tokens * 10 ^ 9 + (end - s.last_refill) * s.requests_per_second
