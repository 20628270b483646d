-- ===== src/Tests/Limits.antt =====
-- The configuration and the rate limiter on concrete numbers.
use funding_spread_arbitrage.Prelude.{ℕ, ◌≤◌, ◌≡◌, refl, true, false, none, List, [], ◌∷◌}
use funding_spread_arbitrage.Double.{lit}
use funding_spread_arbitrage.Double.Fixed.{Fixed, fixed_double}
use funding_spread_arbitrage.Config.{RepricingConfig, balanced, preset, validate_repricing_config}
use funding_spread_arbitrage.Latency.{
  Action, records, runs, run, step, start, largest, maximum_between,
}
use funding_spread_arbitrage.Rate.{
  RateLimiter, turn, try_turn, refill, tokens_to_add, granted, as_secs_f64, tokens_over, take,
}

abbrev number : ℕ → Fixed
number n = lit n 0

-- A threshold that is not a number passes the validator of the repricing configuration.
abbrev unordered : RepricingConfig Fixed
unordered = record (preset balanced) { reprice_threshold_bps = none }

not_a_number-passes : validate_repricing_config unordered ≡ none
unfolding validate_repricing_config preset
not_a_number-passes = refl

-- One token left of a burst of two, ten requests a second.
abbrev limiter : RateLimiter
limiter = record { tokens = 1; last_refill = 0; requests_per_second = 10; burst_capacity = 2 }

abbrev times : List ℕ
times = 0 ∷ 1 ∷ 250_000_000 ∷ 250_000_001 ∷ 250_000_002 ∷ []

grants : granted Fixed limiter times ≡ 3
unfolding granted turn try_turn refill take tokens_to_add tokens_over as_secs_f64
grants = refl

-- Two threads record 9 and 5; the exchange of the second fails, and its latency is not the largest.
abbrev contended : List Action
contended = records 0 9 ∷ records 1 5 ∷ runs 0 true ∷ runs 1 true ∷ runs 0 false ∷ runs 1 false ∷ []

maximum_between_example :
    (5 ≤ (run (start 3) contended).max_ns)
    × ((run (start 3) contended).max_ns ≤ largest 3 contended)
unfolding run step
maximum_between_example = maximum_between 3 contended 1 5 refl
