-- ===== src/Pipeline/Market/Laws.antt =====
-- `MarketPipeline` behaves as a list that keeps its last entries.
use funding_spread_arbitrage.Prelude.{
  ℕ, ◌<◌, ◌≡◌, sym, ◌∙◌, inl, inr, List, [], ◌∷◌, ◌++◌, arith, ltb, if◌then◌else◌, length,
  keep_last, keep_last-append, append_assoc, keep_last-of_le, append-nil,
}
use funding_spread_arbitrage.ArrayQueue.{ArrayQueue, IsFifo}
use funding_spread_arbitrage.Pipeline.Backlog.{inc, push_cases}
use funding_spread_arbitrage.Pipeline.Market.{MarketPipeline, push}

module _ {Q A : Type 0} ⦃a : ArrayQueue Q A⦄ where
  abbrev pub contents : MarketPipeline Q A → List A
  contents p = a.contents p.queue

  abbrev pub bound : MarketPipeline Q A → ℕ
  bound p = a.capacity p.queue

  abbrev pub push_all : MarketPipeline Q A → List A → MarketPipeline Q A
  push_all p [] = p
  push_all p (x ∷ xs) = push_all (push p x) xs

  -- What one push does to the pipeline.
  pub record Pushed (p : MarketPipeline Q A) (x : A) (p' : MarketPipeline Q A) : Type 0 where
    pub held : contents p' ≡ keep_last (bound p) (contents p ++ x ∷ [])
    pub bounded : bound p' ≡ bound p
    pub pushes : p'.push_count ≡ inc p.push_count
    pub enqueues : p'.enqueue_count ≡ inc p.enqueue_count
    pub pops : p'.pop_count ≡ p.pop_count
    pub drops :
        p'.drop_count
        ≡ (if ltb (length (contents p)) (bound p) then p.drop_count else inc p.drop_count)

  module _ (laws : IsFifo Q A) where
    -- With a capacity above 0, a push leaves the newest entries that the capacity allows, is
    -- always counted as enqueued, and is counted as a drop exactly when the queue was full.
    pub push-Pushed : (p : MarketPipeline Q A) (x : A) → 0 < bound p → Pushed p x (push p x)
    unfolding push
    push-Pushed p x pos = elim (push_cases laws p.queue x pos) [
      | inl r ↦ ground (arith, r.accepted, r.holds, r.kept, r.room)
      | inr f ↦ ground (arith, f.refused, f.accepted, f.holds, f.kept, f.full)
    ]

    -- With a capacity above 0, however many updates are pushed before the consumer runs, it finds
    -- the newest of them, behind what is left of the backlog, in order.
    pub push_all-keep_last :
        (p : MarketPipeline Q A) (xs : List A)
        → 0 < bound p
        → contents (push_all p xs) ≡ keep_last (bound p) (contents p ++ xs)
    push_all-keep_last p [] pos = rw append-nil (sym (keep_last-of_le _ _ (laws.bounded p.queue)))
    push_all-keep_last p (x ∷ xs) pos =
        let done : Pushed p x (push p x) = push-Pushed p x pos in
        let rest : contents (push_all (push p x) xs)
            ≡ keep_last (bound (push p x)) (contents (push p x) ++ xs) =
          push_all-keep_last (push p x) xs (rw done.bounded pos) in
        rest ∙ rw (done.bounded, done.held, keep_last-append, append_assoc)
