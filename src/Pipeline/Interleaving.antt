-- ===== src/Pipeline/Interleaving.antt =====
-- `MarketProducer::push` and `MarketConsumer::pop` of src/strategy/pipeline.rs, taken apart into their
-- atomic operations, as one producer thread and one consumer thread run them at the same time. A
-- schedule is the sequence in which the threads take their steps.
pub mod Invariant
pub mod Order
pub mod Safety
use funding_spread_arbitrage.Prelude.{
  ℕ, zero, suc, Bool, true, false, List, [], ◌∷◌, ◌++◌, Option, none, some,
}
use funding_spread_arbitrage.ArrayQueue.{ArrayQueue}
use funding_spread_arbitrage.Pipeline.Backlog.{inc}
use funding_spread_arbitrage.Pipeline.Market.{MarketPipeline}

-- Where the producer stands: the next atomic operation of `push` that it runs.
pub data Producer (A : Type 0) : Type 0 where
  idle : Producer A
  trying : A → Producer A  -- `push_count` is raised; next, the first `queue.push`
  evicting : A → Producer A  -- that failed; next, `queue.pop`
  retrying : A → Producer A  -- next, the second `queue.push`
  retried : Producer A  -- that succeeded; next, `enqueue_count`
  dropping : Producer A  -- next, `drop_count`
  accepted : Producer A  -- the first push succeeded; next, `enqueue_count`

-- Where the consumer stands in `pop`.
pub data Consumer (A : Type 0) : Type 0 where
  ready : Consumer A
  taken : A → Consumer A  -- `queue.pop` gave a value; next, `pop_count`

pub record System (Q A : Type 0) : Type 0 where
  pub pipe : MarketPipeline Q A
  pub producer : Producer A
  pub consumer : Consumer A
  pub received : List A  -- what `pop` has returned, oldest first

module _ {Q A : Type 0} ⦃a : ArrayQueue Q A⦄ where
  abbrev with_queue : System Q A → Q → Producer A → System Q A
  with_queue s q pc = record s { pipe = record s.pipe { queue = q }; producer = pc }

  abbrev first_push : System Q A → A → Q × Option A → System Q A
  first_push s x (q, none) = with_queue s q accepted
  first_push s x (q, some _) = with_queue s q (evicting x)

  abbrev second_push : System Q A → Q × Option A → System Q A
  second_push s (q, none) = with_queue s q retried
  second_push s (q, some _) = with_queue s q dropping

  -- The producer's next atomic operation; without a call in progress there is none.
  produce_at : System Q A → Producer A → System Q A
  produce_at s idle = s
  produce_at s (trying x) = first_push s x (a.push s.pipe.queue x)
  produce_at s (evicting x) = with_queue s (a.pop s.pipe.queue).0 (retrying x)
  produce_at s (retrying x) = second_push s (a.push s.pipe.queue x)
  produce_at s retried = record s {
    pipe = record s.pipe { enqueue_count = inc s.pipe.enqueue_count };
    producer = dropping;
  }
  produce_at s dropping = record s {
    pipe = record s.pipe { drop_count = inc s.pipe.drop_count };
    producer = idle;
  }
  produce_at s accepted = record s {
    pipe = record s.pipe { enqueue_count = inc s.pipe.enqueue_count };
    producer = idle;
  }

  unfoldable pub produce : System Q A → System Q A
  unfolding produce_at
  produce s = produce_at s s.producer

  -- The producer enters `push`: its first atomic operation. A thread has one call at a time.
  call_at : System Q A → A → Producer A → System Q A
  call_at s x idle = record s {
    pipe = record s.pipe { push_count = inc s.pipe.push_count };
    producer = trying x;
  }
  call_at s x _ = s

  unfoldable pub call : System Q A → A → System Q A
  unfolding call_at
  call s x = call_at s x s.producer

  abbrev take_one : System Q A → Q × Option A → System Q A
  take_one s (q, some x) = record s { pipe = record s.pipe { queue = q }; consumer = taken x }
  take_one s (q, none) = record s { pipe = record s.pipe { queue = q } }

  -- The consumer's next atomic operation.
  consume_at : System Q A → Consumer A → System Q A
  consume_at s ready = take_one s (a.pop s.pipe.queue)
  consume_at s (taken x) = record s {
    pipe = record s.pipe { pop_count = inc s.pipe.pop_count };
    consumer = ready;
    received = s.received ++ x ∷ [];
  }

  unfoldable pub consume : System Q A → System Q A
  unfolding consume_at
  consume s = consume_at s s.consumer

-- A step of a schedule.
pub data Action (A : Type 0) : Type 0 where
  calls : A → Action A
  produces : Action A
  consumes : Action A

module _ {Q A : Type 0} ⦃a : ArrayQueue Q A⦄ where
  unfoldable pub step : System Q A → Action A → System Q A
  unfolding produce call consume
  step s (calls x) = call s x
  step s produces = produce s
  step s consumes = consume s

  unfoldable pub run : System Q A → List (Action A) → System Q A
  run s [] = s
  run s (c ∷ cs) = run (step s c) cs

  abbrev pub start : MarketPipeline Q A → System Q A
  start p = record { pipe = p; producer = idle; consumer = ready; received = [] }
