-- ===== src/Pipeline/Market/Refine.antt =====
-- The calls that threads make of a `MarketPipeline`, one after another, against a plain list that
-- keeps its last entries.
use funding_spread_arbitrage.Prelude.{
  ℕ, zero, suc, ◌+◌, ◌%◌, ◌^◌, ◌<◌, ◌≡◌, refl, List, [], ◌∷◌, ◌++◌, Option, none, some, arith, ltb,
  if◌then◌else◌, length, take, drop, keep_last,
}
use funding_spread_arbitrage.ArrayQueue.{ArrayQueue, IsFifo}
use funding_spread_arbitrage.Pipeline.Backlog.{inc}
use funding_spread_arbitrage.Pipeline.Market.{MarketPipeline, push, try_push, pop, pop_batch}
use funding_spread_arbitrage.Pipeline.Market.Laws.{contents, bound, push-Pushed}

-- A call, and what it answers: `none` for `()` and `Ok(())`.
pub data Call (A : Type 0) : Type 0 where
  pushes : A → Call A
  tries : A → Call A
  pops : Call A

module _ {A : Type 0} (cap : ℕ) where
  -- The specification: a list of at most `cap` entries, oldest first.
  abbrev pub spec_step : List A → Call A → List A × Option A
  spec_step xs (pushes x) = (keep_last cap (xs ++ x ∷ []), none)
  spec_step xs (tries x) = if ltb (length xs) cap then (xs ++ x ∷ [], none) else (xs, some x)
  spec_step [] pops = ([], none)
  spec_step (x ∷ xs) pops = (xs, some x)

  abbrev pub spec_run : List A → List (Call A) → List (Option A)
  spec_run xs [] = []
  spec_run xs (c ∷ cs) = (spec_step xs c).1 ∷ spec_run (spec_step xs c).0 cs

module _ {Q A : Type 0} ⦃a : ArrayQueue Q A⦄ where
  unfoldable pub step : MarketPipeline Q A → Call A → MarketPipeline Q A × Option A
  step p (pushes x) = (push p x, none)
  step p (tries x) = try_push p x
  step p pops = pop p

  unfoldable pub run : MarketPipeline Q A → List (Call A) → List (Option A)
  run p [] = []
  run p (c ∷ cs) = let (p', r) = step p c in r ∷ run p' cs

  -- What a call must do: the contents and the answer of the specification, the same capacity.
  record Agrees (p : MarketPipeline Q A) (c : Call A) (r : MarketPipeline Q A × Option A)
      : Type 0 where
    held : contents r.0 ≡ (spec_step (bound p) (contents p) c).0
    answer : r.1 ≡ (spec_step (bound p) (contents p) c).1
    bounded : bound r.0 ≡ bound p

  module _ (laws : IsFifo Q A) where
    try_push-Agrees : (p : MarketPipeline Q A) (x : A) → Agrees p (tries x) (try_push p x)
    unfolding try_push
    try_push-Agrees p x =
        ground
          (arith, laws.push_room p.queue x, laws.push_full p.queue x, laws.capacity-push p.queue x)

    pop-Agrees : (p : MarketPipeline Q A) (xs : List A) → contents p ≡ xs → Agrees p pops (pop p)
    unfolding pop
    pop-Agrees p [] e = ground (arith, laws.pop_empty p.queue e, laws.capacity-pop p.queue)
    pop-Agrees p (x ∷ xs) e =
        ground (arith, laws.pop_front p.queue x xs e, laws.capacity-pop p.queue)

    step-Agrees : (p : MarketPipeline Q A) (c : Call A) → 0 < bound p → Agrees p c (step p c)
    unfolding step
    step-Agrees p (pushes x) pos = ground (arith, push-Pushed laws p x pos)
    step-Agrees p (tries x) pos = try_push-Agrees p x
    step-Agrees p pops pos = pop-Agrees p (contents p) refl

    -- On a queue that keeps the laws of its interface and has a capacity above 0, whatever calls
    -- of push, try_push and pop are made, in whatever order, every answer is that of the list.
    pub run_refines :
        (p : MarketPipeline Q A) (cs : List (Call A))
        → 0 < bound p
        → run p cs ≡ spec_run (bound p) (contents p) cs
    unfolding run
    run_refines p [] pos = refl
    run_refines p (c ∷ cs) pos =
        let done : Agrees p c (step p c) = step-Agrees p c pos in
        rw (run_refines (step p c).0 cs (rw done.bounded pos), done.bounded, done.held, done.answer)

    pop_batch-at :
        (n : ℕ) (p : MarketPipeline Q A) (xs : List A)
        → contents p ≡ xs
        → p.pop_count < 2 ^ 64
        → ((pop_batch n p).1 ≡ take n xs)
          × (contents (pop_batch n p).0 ≡ drop n xs)
          × ((pop_batch n p).0.pop_count ≡ (p.pop_count + length (take n xs)) % 2 ^ 64)
    unfolding pop_batch pop
    pop_batch-at zero p xs e h = ground arith
    pop_batch-at (suc n) p [] e h = ground (arith, laws.pop_empty p.queue e)
    pop_batch-at (suc n) p (x ∷ xs) e h =
        let p' : MarketPipeline Q A = record p {
          queue = (a.pop p.queue).0;
          pop_count = inc p.pop_count;
        } in
        ground (
          arith,
          laws.pop_front p.queue x xs e,
          pop_batch-at n p' xs (laws.pop_front p.queue x xs e).1 (omega arith),
        )

    -- With a pop counter below 2^64, a batch is the oldest entries, at most `n`, in order; the
    -- rest stays, and each entry that is handed out is counted.
    pub pop_batch_lem :
        (n : ℕ) (p : MarketPipeline Q A)
        → p.pop_count < 2 ^ 64
        → ((pop_batch n p).1 ≡ take n (contents p))
          × (contents (pop_batch n p).0 ≡ drop n (contents p))
          × ((pop_batch n p).0.pop_count ≡ (p.pop_count + length (take n (contents p))) % 2 ^ 64)
    pop_batch_lem n p h = pop_batch-at n p (contents p) refl h
