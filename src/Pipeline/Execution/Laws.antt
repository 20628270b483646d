-- ===== src/Pipeline/Execution/Laws.antt =====
-- The two pipelines of src/strategy/pipeline.rs are one algorithm: `ExecutionPipeline` under other
-- names is `MarketPipeline`, so what is proved of one holds of the other.
use funding_spread_arbitrage.Prelude.{◌<◌, ◌≡◌, refl, ◌∙◌, List, [], ◌∷◌, Option, none, arith}
use funding_spread_arbitrage.ArrayQueue.{ArrayQueue, IsFifo}
use funding_spread_arbitrage.Pipeline.Market
use funding_spread_arbitrage.Pipeline.Market.{MarketPipeline}
use funding_spread_arbitrage.Pipeline.Market.Refine.{
  Call, pushes, tries, pops, spec_run, run, step, run_refines,
}
use funding_spread_arbitrage.Pipeline.Execution.{ExecutionPipeline, submit, try_submit, pop}

-- The same pipeline, with `submit_count` for `push_count`.
abbrev pub as_market : {Q A : Type 0} → ExecutionPipeline Q A → MarketPipeline Q A
as_market p = record {
  queue = p.queue;
  push_count = p.submit_count;
  enqueue_count = p.enqueue_count;
  drop_count = p.drop_count;
  pop_count = p.pop_count;
}

module _ {Q A : Type 0} ⦃a : ArrayQueue Q A⦄ where
  unfoldable pub order_step : ExecutionPipeline Q A → Call A → ExecutionPipeline Q A × Option A
  order_step p (pushes x) = (submit p x, none)
  order_step p (tries x) = try_submit p x
  order_step p pops = pop p

  unfoldable pub order_run : ExecutionPipeline Q A → List (Call A) → List (Option A)
  order_run p [] = []
  order_run p (c ∷ cs) = let (p', r) = order_step p c in r ∷ order_run p' cs

  as_market-order_step :
      (p : ExecutionPipeline Q A) (c : Call A)
      → (as_market (order_step p c).0, (order_step p c).1) ≡ step (as_market p) c
  unfolding order_step step submit try_submit pop Market.push Market.try_push Market.pop
  as_market-order_step p (pushes x) = ground arith
  as_market-order_step p (tries x) = ground arith
  as_market-order_step p pops = ground arith

  order_run-run :
      (p : ExecutionPipeline Q A) (cs : List (Call A)) → order_run p cs ≡ run (as_market p) cs
  unfolding order_run run
  order_run-run p [] = refl
  order_run-run p (c ∷ cs) =
      ground (arith, as_market-order_step p c, order_run-run (order_step p c).0 cs)

  -- With a capacity above 0, every answer of the order queue, to any sequence of submit,
  -- try_submit and pop, is that of a list that keeps its last entries.
  pub order_run_refines :
      IsFifo Q A
      → (p : ExecutionPipeline Q A) (cs : List (Call A)) → 0 < a.capacity p.queue
      → order_run p cs ≡ spec_run (a.capacity p.queue) (a.contents p.queue) cs
  order_run_refines laws p cs pos = order_run-run p cs ∙ run_refines laws (as_market p) cs pos
