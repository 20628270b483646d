-- ===== src/Tests/Queues.antt =====
-- The three queues on small inputs.
use funding_spread_arbitrage.Prelude.{ℕ, ◌≡◌, refl, List, [], ◌∷◌, none, some, arith}
use funding_spread_arbitrage.ArrayQueue.Slots.{Slots, slots_queue, Slots-IsFifo}
use funding_spread_arbitrage.Pipeline.Market.{MarketPipeline, push, try_push, pop}
use funding_spread_arbitrage.Pipeline.Market.Laws.{contents, bound}
use funding_spread_arbitrage.Pipeline.Market.Refine.{
  Call, pushes, tries, pops, step, run, spec_run, run_refines,
}
use funding_spread_arbitrage.Pipeline.Execution.{ExecutionPipeline}
use funding_spread_arbitrage.Pipeline.Execution.Laws.{order_run, order_run_refines}
use funding_spread_arbitrage.Pipeline.Opportunity.{OpportunityQueue}
use funding_spread_arbitrage.Pipeline.Opportunity.Laws.{IsAccounted, session, session-IsAccounted}

-- A full queue of two.
abbrev two : Slots ℕ
two = record { items = 1 ∷ 2 ∷ []; free = 0 }

abbrev full : MarketPipeline (Slots ℕ) ℕ
full = record { queue = two; push_count = 2; enqueue_count = 2; drop_count = 0; pop_count = 0 }

abbrev orders : ExecutionPipeline (Slots ℕ) ℕ
orders = record { queue = two; submit_count = 2; enqueue_count = 2; drop_count = 0; pop_count = 0 }

abbrev found : OpportunityQueue (Slots ℕ) ℕ
found = record { queue = two; push_count = 2; pop_count = 0; drop_count = 0 }

abbrev some_calls : List (Call ℕ)
some_calls = pushes 3 ∷ tries 4 ∷ pops ∷ tries 5 ∷ pops ∷ pops ∷ pops ∷ []

push-evicts : (push full 3).queue.items ≡ 2 ∷ 3 ∷ []
unfolding push
push-evicts = refl

run-answers : run full some_calls ≡ none ∷ some 4 ∷ some 2 ∷ none ∷ some 3 ∷ some 5 ∷ none ∷ []
unfolding run step push try_push pop
run-answers = refl

run_refines_example : run full some_calls ≡ spec_run (bound full) (contents full) some_calls
run_refines_example = run_refines Slots-IsFifo full some_calls (omega arith)

order_run_refines_example : order_run orders some_calls ≡ spec_run 2 (1 ∷ 2 ∷ []) some_calls
order_run_refines_example = order_run_refines Slots-IsFifo orders some_calls (omega arith)

session-IsAccounted_example : IsAccounted (session found (some 3 ∷ none ∷ some 4 ∷ []))
session-IsAccounted_example =
    session-IsAccounted Slots-IsFifo found (some 3 ∷ none ∷ some 4 ∷ []) (omega arith) refl
