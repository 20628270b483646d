-- ===== src/Hedge/Timing.antt =====
-- `HedgeTimingMetrics` of src/strategy/atomic_execution.rs. An instant is a number of milliseconds, which
-- each method is given as `now`, and the time from an instant to an earlier one is zero.
use Prim.Native.String.{String}
use funding_spread_arbitrage.Prelude.{
  ℕ, ◌+◌, ◌-◌, ◌%◌, ◌^◌, List, [], ◌∷◌, ◌++◌, Option, none, some,
}

pub record HedgeTimingMetrics : Type 0 where
  pub fill_detected_at : Option ℕ
  pub other_leg_check_at : Option ℕ
  pub cancel_initiated_at : Option ℕ
  pub cancel_completed_at : Option ℕ
  pub market_order_initiated_at : Option ℕ
  pub market_order_accepted_at : Option ℕ
  pub market_order_filled_at : Option ℕ
  pub total_hedge_duration : Option ℕ
  pub depth_check_initiated_at : Option ℕ
  pub depth_check_completed_at : Option ℕ
  pub reprice_count : ℕ
  pub first_reprice_at : Option ℕ
  pub last_reprice_at : Option ℕ
  pub api_response_times : List (String × ℕ)

unfoldable pub new : ℕ → HedgeTimingMetrics
new now = record {
  fill_detected_at = some now;
  other_leg_check_at = none;
  cancel_initiated_at = none;
  cancel_completed_at = none;
  market_order_initiated_at = none;
  market_order_accepted_at = none;
  market_order_filled_at = none;
  total_hedge_duration = none;
  depth_check_initiated_at = none;
  depth_check_completed_at = none;
  reprice_count = 0;
  first_reprice_at = none;
  last_reprice_at = none;
  api_response_times = [];
}

unfoldable pub record_other_leg_check : HedgeTimingMetrics → ℕ → HedgeTimingMetrics
record_other_leg_check m now = record m { other_leg_check_at = some now }

unfoldable pub record_cancel_initiated : HedgeTimingMetrics → ℕ → HedgeTimingMetrics
record_cancel_initiated m now = record m { cancel_initiated_at = some now }

unfoldable pub record_cancel_completed : HedgeTimingMetrics → ℕ → HedgeTimingMetrics
record_cancel_completed m now = record m { cancel_completed_at = some now }

unfoldable pub record_market_order_initiated : HedgeTimingMetrics → ℕ → HedgeTimingMetrics
record_market_order_initiated m now = record m { market_order_initiated_at = some now }

unfoldable pub record_market_order_accepted : HedgeTimingMetrics → ℕ → HedgeTimingMetrics
record_market_order_accepted m now = record m { market_order_accepted_at = some now }

unfoldable pub record_market_order_filled : HedgeTimingMetrics → ℕ → HedgeTimingMetrics
record_market_order_filled m now = record m { market_order_filled_at = some now }

unfoldable pub record_depth_check_initiated : HedgeTimingMetrics → ℕ → HedgeTimingMetrics
record_depth_check_initiated m now = record m { depth_check_initiated_at = some now }

unfoldable pub record_depth_check_completed : HedgeTimingMetrics → ℕ → HedgeTimingMetrics
record_depth_check_completed m now = record m { depth_check_completed_at = some now }

unfoldable pub record_reprice : HedgeTimingMetrics → ℕ → HedgeTimingMetrics
record_reprice m now = record m {
  first_reprice_at = elim m.first_reprice_at [ none ↦ some now | some t ↦ some t ];
  last_reprice_at = some now;
  reprice_count = (m.reprice_count + 1) % 2 ^ 32;
}

unfoldable pub record_api_response : HedgeTimingMetrics → String → ℕ → HedgeTimingMetrics
record_api_response m endpoint duration = record m {
  api_response_times = m.api_response_times ++ (endpoint, duration) ∷ [];
}

-- `match (from, to) { (Some(a), Some(b)) => Some(b.duration_since(a)), _ => None }`
abbrev between : Option ℕ → Option ℕ → Option ℕ
between (some from) (some to) = some (to - from)
between _ _ = none

unfoldable pub fill_to_other_leg_check : HedgeTimingMetrics → Option ℕ
fill_to_other_leg_check m = between m.fill_detected_at m.other_leg_check_at

unfoldable pub fill_to_cancel_initiated : HedgeTimingMetrics → Option ℕ
fill_to_cancel_initiated m = between m.fill_detected_at m.cancel_initiated_at

unfoldable pub cancel_duration : HedgeTimingMetrics → Option ℕ
cancel_duration m = between m.cancel_initiated_at m.cancel_completed_at

unfoldable pub cancel_to_market_order : HedgeTimingMetrics → Option ℕ
cancel_to_market_order m = between m.cancel_completed_at m.market_order_initiated_at

unfoldable pub market_order_acceptance_duration : HedgeTimingMetrics → Option ℕ
market_order_acceptance_duration m = between m.market_order_initiated_at m.market_order_accepted_at

unfoldable pub market_order_fill_duration : HedgeTimingMetrics → Option ℕ
market_order_fill_duration m = between m.market_order_accepted_at m.market_order_filled_at

unfoldable pub depth_check_duration : HedgeTimingMetrics → Option ℕ
depth_check_duration m = between m.depth_check_initiated_at m.depth_check_completed_at

unfoldable pub total_reprice_duration : HedgeTimingMetrics → Option ℕ
total_reprice_duration m = between m.first_reprice_at m.last_reprice_at

unfoldable pub finalize : HedgeTimingMetrics → HedgeTimingMetrics
finalize m = record m {
  total_hedge_duration = elim (between m.fill_detected_at m.market_order_filled_at) [
    | none ↦ m.total_hedge_duration
    | some t ↦ some t
  ];
}
