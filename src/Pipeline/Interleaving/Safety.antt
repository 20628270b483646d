-- ===== src/Pipeline/Interleaving/Safety.antt =====
-- What the counters of a `MarketPipeline` say, and what they do not, while both threads run.
use funding_spread_arbitrage.Prelude.{
  ◌+◌, ◌^◌, ◌≤◌, ◌<◌, ◌≡◌, List, [], ◌∷◌, arith, length, ap, ◌∙◌, inl, inr,
}
use funding_spread_arbitrage.ArrayQueue.{ArrayQueue, IsFifo}
use funding_spread_arbitrage.Pipeline.Backlog.{inc, push_cases}
use funding_spread_arbitrage.Pipeline.Market.{MarketPipeline, push}
use funding_spread_arbitrage.Pipeline.Interleaving.{
  idle, retrying, ready, Action, calls, produces, consumes, step, run, start,
}
use funding_spread_arbitrage.Pipeline.Interleaving.Invariant.{Inv, run-Inv}

-- A pipeline as `new` and `with_capacity` make it.
pub record IsFresh {Q A : Type 0} ⦃a : ArrayQueue Q A⦄ (p : MarketPipeline Q A) : Type 0 where
  pub room : 0 < a.capacity p.queue
  pub empty : a.contents p.queue ≡ []
  pub no_push : p.push_count ≡ 0
  pub no_enqueue : p.enqueue_count ≡ 0
  pub no_drop : p.drop_count ≡ 0
  pub no_pop : p.pop_count ≡ 0

abbrev pub drained : {A : Type 0} → A → List (Action A)
drained x =
    calls x ∷ produces ∷ consumes ∷ produces ∷ produces ∷ produces ∷ produces ∷ consumes ∷ []

module _ {Q A : Type 0} ⦃a : ArrayQueue Q A⦄ where
  start-Inv : (p : MarketPipeline Q A) → IsFresh p → Inv (a.capacity p.queue) 0 (start p)
  start-Inv p f = ground arith

  reached :
      IsFifo Q A
      → (p : MarketPipeline Q A) (cs : List (Action A)) → IsFresh p
      → length cs < 2 ^ 64
      → Inv (a.capacity p.queue) (0 + length cs) (run (start p) cs)
  reached laws p cs f small =
      run-Inv laws (a.capacity p.queue) 0 (start p) cs f.room (omega arith) (start-Inv p f)

  -- From a new pipeline with a capacity above 0, in a schedule of fewer than 2^64 steps, the
  -- second `queue.push` of a push always finds room, whatever the consumer does in between.
  pub retry_has_room :
      IsFifo Q A
      → (p : MarketPipeline Q A) (cs : List (Action A)) (x : A) → IsFresh p
      → length cs < 2 ^ 64
      → (run (start p) cs).producer ≡ retrying x
      → length (a.contents (run (start p) cs).pipe.queue) < a.capacity p.queue
  retry_has_room laws p cs x f small e = ground (arith, reached laws p cs f small)

  -- From a new pipeline with a capacity above 0, after a schedule of fewer than 2^64 steps that
  -- leaves both threads between two calls, every push has been counted as enqueued; and what was
  -- enqueued and is neither received nor still queued is at most `drop_count`.
  pub counters_bound :
      IsFifo Q A
      → (p : MarketPipeline Q A) (cs : List (Action A)) → IsFresh p
      → length cs < 2 ^ 64
      → (run (start p) cs).producer ≡ idle
      → (run (start p) cs).consumer ≡ ready
      → let s = run (start p) cs in
        (s.pipe.push_count ≡ s.pipe.enqueue_count)
        × (s.pipe.pop_count + length (a.contents s.pipe.queue) ≤ s.pipe.enqueue_count)
        × (s.pipe.enqueue_count
            ≤ s.pipe.pop_count + length (a.contents s.pipe.queue) + s.pipe.drop_count)
  counters_bound laws p cs f small pe ce = ground (arith, reached laws p cs f small)

  -- With a capacity above 0, one call with no step of the consumer in between is `push`.
  run-push :
      IsFifo Q A
      → (p : MarketPipeline Q A) (x : A) → 0 < a.capacity p.queue
      → run (start p) (calls x ∷ produces ∷ produces ∷ produces ∷ produces ∷ produces ∷ [])
        ≡ start (push p x)
  unfolding run step push
  run-push laws p x pos = elim (push_cases laws p.queue x pos) [
    | inl r ↦ ground (arith, r.accepted)
    | inr f ↦ ground (arith, f.refused, f.accepted)
  ]

  -- `drop_count` also counts a push that drops nothing. In the schedule `drained`, where the
  -- consumer takes the only entry of a full queue of capacity 1 after the first `queue.push` has
  -- failed, the producer's `queue.pop` finds nothing: both updates are delivered or queued, and a
  -- drop is counted.
  drop_counted_without_drop :
      IsFifo Q A
      → (p : MarketPipeline Q A) (x y : A) → a.capacity p.queue ≡ 1
      → a.contents p.queue ≡ y ∷ []
      → let s = run (start p) (drained x) in
        (s.pipe.drop_count ≡ inc p.drop_count)
        × (s.received ≡ y ∷ [])
        × (a.contents s.pipe.queue ≡ x ∷ [])
  unfolding run step
  drop_counted_without_drop laws p x y one full =
      let q₁ = (a.push p.queue x).0 in
      let q₂ = (a.pop q₁).0 in
      let q₃ = (a.pop q₂).0 in
      let refused = laws.push_full p.queue x (omega (arith, ap length full)) in
      let popped = laws.pop_front q₁ y [] (refused.1 ∙ full) in
      let nothing = laws.pop_empty q₂ popped.1 in
      let cap : a.capacity q₃ ≡ 1 =
        laws.capacity-pop q₂ ∙ laws.capacity-pop q₁ ∙ laws.capacity-push p.queue x ∙ one in
      let placed = laws.push_room q₃ x (omega (arith, ap length nothing.1)) in
      let held : a.contents (a.push q₃ x).0 ≡ x ∷ [] = placed.1 ∙ rw nothing.1 in ground arith
