-- ===== src/Pipeline/Market/Metrics.antt =====
-- `PipelineMetrics` of src/strategy/pipeline.rs, a snapshot of the counters and the depth.
use funding_spread_arbitrage.Prelude.{ℕ, Bool, ◌||◌, ◌==◌, if◌then◌else◌}
use funding_spread_arbitrage.Double.{Double, lit, of_nat, ◌⊗◌, ◌⊘◌, ◌≺◌}
use funding_spread_arbitrage.ArrayQueue.{ArrayQueue}
use funding_spread_arbitrage.Pipeline.Market.{MarketPipeline, depth, capacity}

pub record PipelineMetrics : Type 0 where
  pub push_count : ℕ
  pub enqueue_count : ℕ
  pub drop_count : ℕ
  pub pop_count : ℕ
  pub queue_depth : ℕ
  pub queue_capacity : ℕ

unfoldable pub metrics : {Q A : Type 0} ⦃a : ArrayQueue Q A⦄ → MarketPipeline Q A → PipelineMetrics
unfolding depth capacity
metrics p = record {
  push_count = p.push_count;
  enqueue_count = p.enqueue_count;
  drop_count = p.drop_count;
  pop_count = p.pop_count;
  queue_depth = depth p;
  queue_capacity = capacity p;
}

module _ {F : Type 0} ⦃d : Double F⦄ where
  unfoldable pub drop_rate : PipelineMetrics → F
  drop_rate m =
      if m.push_count == 0 then lit 0 0 else (of_nat m.drop_count ⊘ of_nat m.push_count) ⊗ lit 100 0

  unfoldable pub utilization : PipelineMetrics → F
  utilization m = (of_nat m.queue_depth ⊘ of_nat m.queue_capacity) ⊗ lit 100 0

module _ (F : Type 0) ⦃d : Double F⦄ where
  unfoldable pub is_backpressure : PipelineMetrics → Bool
  unfolding drop_rate utilization
  is_backpressure m = lit {F = F} 80 0 ≺ utilization m || lit {F = F} 1 0 ≺ drop_rate m
