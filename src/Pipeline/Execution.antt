-- ===== src/Pipeline/Execution.antt =====
-- `ExecutionPipeline` of src/strategy/pipeline.rs with its two handles: the orders of the strategy on
-- their way to the execution thread.
pub mod Laws
use funding_spread_arbitrage.Prelude.{ℕ, zero, suc, List, [], ◌∷◌, Option, none, some}
use funding_spread_arbitrage.ArrayQueue.{ArrayQueue}
use funding_spread_arbitrage.Pipeline.Backlog.{inc}

-- `A` is the type of the entries, `OrderRequest` in the source.
pub record ExecutionPipeline (Q A : Type 0) : Type 0 where
  pub queue : Q
  pub submit_count : ℕ
  pub enqueue_count : ℕ
  pub drop_count : ℕ
  pub pop_count : ℕ

abbrev pub order_queue_capacity : ℕ
order_queue_capacity = 1_000

module _ {Q A : Type 0} ⦃a : ArrayQueue Q A⦄ where
  unfoldable pub with_capacity : ℕ → ExecutionPipeline Q A
  with_capacity capacity = record {
    queue = a.new capacity;
    submit_count = 0;
    enqueue_count = 0;
    drop_count = 0;
    pop_count = 0;
  }

  abbrev enqueued : ExecutionPipeline Q A → Q → ExecutionPipeline Q A
  enqueued p q = record p { queue = q; enqueue_count = inc p.enqueue_count }

  -- the second push of `submit`, and the drop counter behind it
  abbrev after_retry : ExecutionPipeline Q A → Q × Option A → ExecutionPipeline Q A
  after_retry p (q, none) = record (enqueued p q) { drop_count = inc p.drop_count }
  after_retry p (q, some _) = record p { queue = q; drop_count = inc p.drop_count }

  abbrev after_push : ExecutionPipeline Q A → A → Q × Option A → ExecutionPipeline Q A
  after_push p order (q, none) = enqueued p q
  after_push p order (q, some _) = after_retry p (a.push (a.pop q).0 order)

  -- `OrderProducer::submit`
  unfoldable pub submit : ExecutionPipeline Q A → A → ExecutionPipeline Q A
  submit p order =
      let p' = record p { submit_count = inc p.submit_count } in
      after_push p' order (a.push p'.queue order)

  abbrev after_try : ExecutionPipeline Q A → Q × Option A → ExecutionPipeline Q A × Option A
  after_try p (q, none) = (enqueued p q, none)
  after_try p (q, some order) = (record p { queue = q }, some order)

  -- `OrderProducer::try_submit`; `some order` is `Err(order)`.
  unfoldable pub try_submit : ExecutionPipeline Q A → A → ExecutionPipeline Q A × Option A
  try_submit p order =
      let p' = record p { submit_count = inc p.submit_count } in
      after_try p' (a.push p'.queue order)

  abbrev after_pop : ExecutionPipeline Q A → Q × Option A → ExecutionPipeline Q A × Option A
  after_pop p (q, some order) = (record p { queue = q; pop_count = inc p.pop_count }, some order)
  after_pop p (q, none) = (record p { queue = q }, none)

  -- `OrderConsumer::pop`
  unfoldable pub pop : ExecutionPipeline Q A → ExecutionPipeline Q A × Option A
  pop p = after_pop p (a.pop p.queue)

  -- `OrderConsumer::pop_batch`: the loop over `0..max_batch`, which breaks at the first `None`.
  unfoldable pub pop_batch : ℕ → ExecutionPipeline Q A → ExecutionPipeline Q A × List A
  pop_batch zero p = (p, [])
  pop_batch (suc n) p =
      let (p', r) = pop p in
      elim r [
        | none ↦ (p', [])
        | some order ↦ let (p'', batch) = pop_batch n p' in (p'', order ∷ batch)
      ]
