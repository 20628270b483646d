-- ===== src/Tests/Threads.antt =====
-- Schedules of the producer and the consumer of a market pipeline.
use funding_spread_arbitrage.Prelude.{
  ℕ, ◌+◌, ◌≤◌, ◌<◌, ◌≡◌, refl, List, [], ◌∷◌, ◌++◌, arith, length, Subseq,
}
use funding_spread_arbitrage.ArrayQueue.Slots.{Slots, slots_queue, Slots-IsFifo}
use funding_spread_arbitrage.Pipeline.Market.{MarketPipeline}
use funding_spread_arbitrage.Pipeline.Interleaving.{
  Action, calls, produces, consumes, run, step, start,
}
use funding_spread_arbitrage.Pipeline.Interleaving.Order.{alive, pushed, order_kept}
use funding_spread_arbitrage.Pipeline.Interleaving.Safety.{IsFresh, retry_has_room, counters_bound}

-- An empty queue of one.
abbrev fresh : MarketPipeline (Slots ℕ) ℕ
fresh = record {
  queue = record { items = []; free = 1 };
  push_count = 0;
  enqueue_count = 0;
  drop_count = 0;
  pop_count = 0;
}

fresh-IsFresh : IsFresh fresh
fresh-IsFresh = record {
  room = omega arith;
  empty = refl;
  no_push = refl;
  no_enqueue = refl;
  no_drop = refl;
  no_pop = refl;
}

-- Two pushes; the consumer empties the queue while the second one evicts.
abbrev to_retry : List (Action ℕ)
to_retry = calls 1 ∷ produces ∷ produces ∷ calls 2 ∷ produces ∷ consumes ∷ produces ∷ []

abbrev to_end : List (Action ℕ)
to_end = to_retry ++ (produces ∷ produces ∷ produces ∷ consumes ∷ [])

abbrev held : MarketPipeline (Slots ℕ) ℕ
held = record {
  queue = record { items = 7 ∷ []; free = 0 };
  push_count = 1;
  enqueue_count = 1;
  drop_count = 0;
  pop_count = 0;
}

order_kept_example : Subseq (alive (run (start fresh) to_end)) (pushed (start fresh) to_end)
order_kept_example = order_kept Slots-IsFifo fresh to_end refl

retry_has_room_example : length (run (start fresh) to_retry).pipe.queue.items < 1
unfolding run step
retry_has_room_example =
    retry_has_room Slots-IsFifo fresh to_retry 2 fresh-IsFresh (omega arith) refl

counters_bound_example :
    let s = run (start fresh) to_end in
    (s.pipe.push_count ≡ s.pipe.enqueue_count)
    × (s.pipe.pop_count + length s.pipe.queue.items ≤ s.pipe.enqueue_count)
    × (s.pipe.enqueue_count ≤ s.pipe.pop_count + length s.pipe.queue.items + s.pipe.drop_count)
unfolding run step
counters_bound_example =
    counters_bound Slots-IsFifo fresh to_end fresh-IsFresh (omega arith) refl refl
