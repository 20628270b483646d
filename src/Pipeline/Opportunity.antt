-- ===== src/Pipeline/Opportunity.antt =====
-- `OpportunityQueue` of src/strategy/opportunity_queue.rs with its two handles: the opportunities of
-- the detector on their way to the strategy.
pub mod Laws
use funding_spread_arbitrage.Prelude.{ℕ, zero, suc, Bool, List, [], ◌∷◌, Option, none, some, ◌==◌}
use funding_spread_arbitrage.ArrayQueue.{ArrayQueue}
use funding_spread_arbitrage.Pipeline.Backlog.{inc}

-- `A` is the type of the entries, `ArbitrageOpportunity` in the source.
pub record OpportunityQueue (Q A : Type 0) : Type 0 where
  pub queue : Q
  pub push_count : ℕ
  pub pop_count : ℕ
  pub drop_count : ℕ

module _ {Q A : Type 0} ⦃a : ArrayQueue Q A⦄ where
  unfoldable pub with_capacity : ℕ → OpportunityQueue Q A
  with_capacity capacity = record {
    queue = a.new capacity;
    push_count = 0;
    pop_count = 0;
    drop_count = 0;
  }

  unfoldable pub new : OpportunityQueue Q A
  unfolding with_capacity
  new = with_capacity 1024

  unfoldable pub len : OpportunityQueue Q A → ℕ
  len p = a.len p.queue

  unfoldable pub is_empty : OpportunityQueue Q A → Bool
  is_empty p = a.len p.queue == 0

  -- The answer of the second push is thrown away.
  abbrev after_push : OpportunityQueue Q A → Q × Option A → OpportunityQueue Q A
  after_push p (q, none) = record p { queue = q }
  after_push p (q, some rejected) = record p {
    queue = (a.push (a.pop q).0 rejected).0;
    drop_count = inc p.drop_count;
  }

  -- `OpportunityProducer::push`
  unfoldable pub push : OpportunityQueue Q A → A → OpportunityQueue Q A
  push p opportunity =
      let p' = record p { push_count = inc p.push_count } in
      after_push p' (a.push p'.queue opportunity)

  abbrev after_pop : OpportunityQueue Q A → Q × Option A → OpportunityQueue Q A × Option A
  after_pop p (q, some opp) = (record p { queue = q; pop_count = inc p.pop_count }, some opp)
  after_pop p (q, none) = (record p { queue = q }, none)

  -- `OpportunityConsumer::pop`
  unfoldable pub pop : OpportunityQueue Q A → OpportunityQueue Q A × Option A
  pop p = after_pop p (a.pop p.queue)

  -- `OpportunityConsumer::pop_batch`: the loop over `0..max_batch`, which breaks at the first `None`.
  unfoldable pub pop_batch : ℕ → OpportunityQueue Q A → OpportunityQueue Q A × List A
  pop_batch zero p = (p, [])
  pop_batch (suc n) p =
      let (p', r) = pop p in
      elim r [
        | none ↦ (p', [])
        | some opp ↦ let (p'', batch) = pop_batch n p' in (p'', opp ∷ batch)
      ]
