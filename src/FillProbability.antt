-- ===== src/FillProbability.antt =====
-- `FillProbabilityEstimator` of src/strategy/fill_probability.rs: whether a limit order is worth a try. The
-- reasons that it prints are left out.
pub mod Choice
use funding_spread_arbitrage.Prelude.{
  ℕ, zero, suc, ◌+◌, min, Bool, true, false, ◌&&◌, List, [], ◌∷◌, leb, length, take, if◌then◌else◌,
}
use funding_spread_arbitrage.Double.{Double, lit, of_nat, ◌⊕◌, ◌⊖◌, ◌⊗◌, ◌⊘◌, ◌≺◌, ◌≼◌}
use funding_spread_arbitrage.Types.Market.{PriceLevel, OrderBookDepth}
use funding_spread_arbitrage.Types.Order.{OrderSide}
use funding_spread_arbitrage.Types.Trade.{sum_from}

pub record FillProbabilityEstimator (F : Type 0) : Type 0 where
  pub min_probability_threshold : F
  pub max_wait_time_ms : ℕ

pub data OrderAction : Type 0 where
  use_limit_with_fallback : ℕ → OrderAction
  use_market : OrderAction

pub record FillProbability (F : Type 0) : Type 0 where
  pub probability : F
  pub recommended_action : OrderAction
  pub estimated_wait_ms : ℕ

pub record LimitOrderDecision (F : Type 0) : Type 0 where
  pub use_limit : Bool
  pub price_level : ℕ
  pub probability : F
  pub wait_time_ms : ℕ

module _ {F : Type 0} where
  abbrev pub book_side : OrderBookDepth F → OrderSide → List (PriceLevel F)
  book_side order_book OrderSide.long = order_book.asks
  book_side order_book OrderSide.short = order_book.bids

module _ {F : Type 0} ⦃d : Double F⦄ where
  unfoldable pub new : FillProbabilityEstimator F
  new = record { min_probability_threshold = lit 70 2; max_wait_time_ms = 200 }

  -- `level.quantity * level.price`, of each level
  abbrev worths : List (PriceLevel F) → List F
  worths [] = []
  worths (l ∷ ls) = l.quantity ⊗ l.price ∷ worths ls

  abbrev base_probability : F → F
  base_probability depth_ratio =
      if lit 10 0 ≼ depth_ratio
      then lit 95 2
      else if lit 5 0 ≼ depth_ratio
      then lit 85 2
      else if lit 3 0 ≼ depth_ratio
      then lit 75 2
      else if lit 2 0 ≼ depth_ratio
      then lit 60 2
      else if lit 1 0 ≼ depth_ratio
      then lit 40 2
      else lit 20 2

  abbrev level_penalty : ℕ → F
  level_penalty zero = lit 1 0
  level_penalty (suc zero) = lit 95 2
  level_penalty (suc (suc zero)) = lit 85 2
  level_penalty (suc (suc (suc zero))) = lit 70 2
  level_penalty _ = lit 50 2

  abbrev wait_for : F → ℕ
  wait_for adjusted_probability =
      if lit 90 2 ≼ adjusted_probability
      then 50
      else if lit 75 2 ≼ adjusted_probability
      then 100
      else if lit 60 2 ≼ adjusted_probability
      then 200
      else 500

  unfoldable pub calculate_fill_probability :
      FillProbabilityEstimator F → OrderBookDepth F → OrderSide → ℕ → F → FillProbability F
  unfolding sum_from
  calculate_fill_probability s order_book side price_level order_size =
      let levels = book_side order_book side in
      let cumulative_depth = sum_from (lit 0 0) (worths (take (price_level + 1) levels)) in
      let depth_ratio = cumulative_depth ⊘ order_size in
      let adjusted_probability = base_probability depth_ratio ⊗ level_penalty price_level in
      let estimated_wait_ms = wait_for adjusted_probability in
      let recommended_action =
        if s.min_probability_threshold ≼ adjusted_probability
        then use_limit_with_fallback (min estimated_wait_ms s.max_wait_time_ms)
        else use_market in
      if leb (length levels) price_level
      then record { probability = lit 0 0; recommended_action = use_market; estimated_wait_ms = 0 }
      else record {
        probability = adjusted_probability;
        recommended_action = recommended_action;
        estimated_wait_ms = estimated_wait_ms;
      }

  -- One turn of the loop over the levels.
  abbrev pub try_level :
      FillProbabilityEstimator F
      → OrderBookDepth F
      → OrderSide
      → F
      → LimitOrderDecision F
      → ℕ
      → LimitOrderDecision F
  try_level s order_book side order_size best_decision level =
      let fill_prob = calculate_fill_probability s order_book side level order_size in
      if s.min_probability_threshold ≼ fill_prob.probability
        && best_decision.probability ≺ fill_prob.probability
      then record {
        use_limit = true;
        price_level = level;
        probability = fill_prob.probability;
        wait_time_ms = fill_prob.estimated_wait_ms;
      }
      else best_decision

  abbrev pub no_decision : LimitOrderDecision F
  no_decision = record {
    use_limit = false;
    price_level = 0;
    probability = lit 0 0;
    wait_time_ms = 0;
  }

  unfoldable pub should_try_limit :
      FillProbabilityEstimator F → OrderBookDepth F → OrderSide → F → LimitOrderDecision F
  unfolding calculate_fill_probability
  should_try_limit s order_book side order_size =
      let try = try_level s order_book side order_size in try (try (try no_decision 0) 1) 2

  unfoldable pub should_retry_limit :
      FillProbabilityEstimator F → OrderBookDepth F → OrderSide → F → ℕ → Bool
  unfolding calculate_fill_probability
  should_retry_limit s order_book side remaining_size previous_attempts =
      let retry_threshold = s.min_probability_threshold ⊖ lit 10 2 ⊗ of_nat previous_attempts in
      let fill_prob = calculate_fill_probability s order_book side 0 remaining_size in
      if retry_threshold ≺ lit 50 2 then false else retry_threshold ≼ fill_prob.probability
