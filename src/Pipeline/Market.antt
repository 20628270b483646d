-- ===== src/Pipeline/Market.antt =====
-- `MarketPipeline` of src/strategy/pipeline.rs with its two handles. The handles share the queue and
-- the counters of the pipeline, so a method of a handle is a function on the pipeline. Each is run
-- here as one step; `Pipeline.Interleaving` takes the producer's apart.
pub mod Laws
pub mod Metrics
pub mod Refine
use funding_spread_arbitrage.Prelude.{ℕ, zero, suc, Bool, List, [], ◌∷◌, Option, none, some, ◌==◌}
use funding_spread_arbitrage.ArrayQueue.{ArrayQueue}
use funding_spread_arbitrage.Pipeline.Backlog.{inc}

-- `A` is the type of the entries, `MarketUpdate` in the source; nothing here looks into one.
pub record MarketPipeline (Q A : Type 0) : Type 0 where
  pub queue : Q
  pub push_count : ℕ
  pub enqueue_count : ℕ
  pub drop_count : ℕ
  pub pop_count : ℕ

abbrev pub market_queue_capacity : ℕ
market_queue_capacity = 10_000

module _ {Q A : Type 0} ⦃a : ArrayQueue Q A⦄ where
  unfoldable pub with_capacity : ℕ → MarketPipeline Q A
  with_capacity capacity = record {
    queue = a.new capacity;
    push_count = 0;
    enqueue_count = 0;
    drop_count = 0;
    pop_count = 0;
  }

  unfoldable pub depth : MarketPipeline Q A → ℕ
  depth p = a.len p.queue

  unfoldable pub capacity : MarketPipeline Q A → ℕ
  capacity p = a.capacity p.queue

  unfoldable pub is_empty : MarketPipeline Q A → Bool
  is_empty p = a.len p.queue == 0

  unfoldable pub is_full : MarketPipeline Q A → Bool
  is_full p = a.len p.queue == a.capacity p.queue

  abbrev pub enqueued : MarketPipeline Q A → Q → MarketPipeline Q A
  enqueued p q = record p { queue = q; enqueue_count = inc p.enqueue_count }

  -- the second push of `push`, and the drop counter behind it
  abbrev after_retry : MarketPipeline Q A → Q × Option A → MarketPipeline Q A
  after_retry p (q, none) = record (enqueued p q) { drop_count = inc p.drop_count }
  after_retry p (q, some _) = record p { queue = q; drop_count = inc p.drop_count }

  abbrev after_push : MarketPipeline Q A → A → Q × Option A → MarketPipeline Q A
  after_push p update (q, none) = enqueued p q
  after_push p update (q, some _) = after_retry p (a.push (a.pop q).0 update)

  -- `MarketProducer::push`
  unfoldable pub push : MarketPipeline Q A → A → MarketPipeline Q A
  push p update =
      let p' = record p { push_count = inc p.push_count } in
      after_push p' update (a.push p'.queue update)

  abbrev after_try : MarketPipeline Q A → Q × Option A → MarketPipeline Q A × Option A
  after_try p (q, none) = (enqueued p q, none)
  after_try p (q, some update) = (record p { queue = q }, some update)

  -- `MarketProducer::try_push`; `some update` is `Err(update)`.
  unfoldable pub try_push : MarketPipeline Q A → A → MarketPipeline Q A × Option A
  try_push p update =
      let p' = record p { push_count = inc p.push_count } in after_try p' (a.push p'.queue update)

  abbrev after_pop : MarketPipeline Q A → Q × Option A → MarketPipeline Q A × Option A
  after_pop p (q, some update) = (record p { queue = q; pop_count = inc p.pop_count }, some update)
  after_pop p (q, none) = (record p { queue = q }, none)

  -- `MarketConsumer::pop`
  unfoldable pub pop : MarketPipeline Q A → MarketPipeline Q A × Option A
  pop p = after_pop p (a.pop p.queue)

  -- `MarketConsumer::pop_batch`: the loop over `0..max_batch`, which breaks at the first `None`.
  unfoldable pub pop_batch : ℕ → MarketPipeline Q A → MarketPipeline Q A × List A
  pop_batch zero p = (p, [])
  pop_batch (suc n) p =
      let (p', r) = pop p in
      elim r [
        | none ↦ (p', [])
        | some update ↦ let (p'', batch) = pop_batch n p' in (p'', update ∷ batch)
      ]
