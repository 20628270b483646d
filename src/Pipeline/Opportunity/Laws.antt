-- ===== src/Pipeline/Opportunity/Laws.antt =====
-- No opportunity is lost but the oldest of a full queue, and the counters account for each.
use funding_spread_arbitrage.Prelude.{
  ℕ, zero, suc, ◌+◌, ◌%◌, ◌^◌, ◌<◌, ◌≡◌, refl, inl, inr, List, [], ◌∷◌, ◌++◌, Option, none, some,
  arith, ltb, if◌then◌else◌, length, take, drop, keep_last, length-append, length-keep_last-min,
}
use funding_spread_arbitrage.ArrayQueue.{ArrayQueue, IsFifo}
use funding_spread_arbitrage.Pipeline.Backlog.{inc, push_cases}
use funding_spread_arbitrage.Pipeline.Opportunity.{OpportunityQueue, push, pop, pop_batch}

module _ {Q A : Type 0} ⦃a : ArrayQueue Q A⦄ where
  -- What one push does to the queue.
  pub record Queued (p : OpportunityQueue Q A) (x : A) (p' : OpportunityQueue Q A) : Type 0 where
    pub held : a.contents p'.queue ≡ keep_last (a.capacity p.queue) (a.contents p.queue ++ x ∷ [])
    pub bounded : a.capacity p'.queue ≡ a.capacity p.queue
    pub pushes : p'.push_count ≡ inc p.push_count
    pub pops : p'.pop_count ≡ p.pop_count
    pub drops : p'.drop_count ≡ (
        if ltb (length (a.contents p.queue)) (a.capacity p.queue)
        then p.drop_count
        else inc p.drop_count)

  -- The counters tell what the queue holds: what was pushed is held, popped or dropped.
  abbrev pub IsAccounted : OpportunityQueue Q A → Type 0
  IsAccounted p = p.push_count ≡ (p.pop_count + p.drop_count + length (a.contents p.queue)) % 2 ^ 64

  -- a producer's pushes (`some`) and a consumer's pops (`none`), in the order that they happen
  pub session : OpportunityQueue Q A → List (Option A) → OpportunityQueue Q A
  session p [] = p
  session p (some x ∷ cs) = session (push p x) cs
  session p (none ∷ cs) = session (pop p).0 cs

  module _ (laws : IsFifo Q A) where
    -- With a capacity above 0, a push puts the opportunity at the end, whether or not the queue
    -- was full; of a full queue the oldest entry goes, and is counted.
    pub push-Queued :
        (p : OpportunityQueue Q A) (x : A) → 0 < a.capacity p.queue → Queued p x (push p x)
    unfolding push
    push-Queued p x pos = elim (push_cases laws p.queue x pos) [
      | inl r ↦ ground (arith, r.accepted, r.holds, r.kept, r.room)
      | inr f ↦ ground (arith, f.refused, f.accepted, f.holds, f.kept, f.full)
    ]

    push-IsAccounted :
        (p : OpportunityQueue Q A) (x : A)
        → 0 < a.capacity p.queue
        → IsAccounted p
        → IsAccounted (push p x)
    push-IsAccounted p x pos h = ground (
      arith,
      push-Queued p x pos,
      laws.bounded p.queue,
      length-keep_last-min (a.capacity p.queue) (a.contents p.queue ++ x ∷ []),
      length-append (a.contents p.queue) (x ∷ []),
    )

    pop-front :
        (p : OpportunityQueue Q A) (xs : List A)
        → a.contents p.queue ≡ xs
        → IsAccounted p
        → IsAccounted (pop p).0 × (a.capacity (pop p).0.queue ≡ a.capacity p.queue)
    unfolding pop
    pop-front p [] e h = ground (arith, laws.pop_empty p.queue e, laws.capacity-pop p.queue)
    pop-front p (x ∷ xs) e h =
        ground (arith, laws.pop_front p.queue x xs e, laws.capacity-pop p.queue)

    -- With a capacity above 0 and counters that account for what the queue holds, they still do
    -- after any mix of pushes and pops: the opportunities pushed are those popped, those dropped
    -- and those still held, modulo 2^64.
    pub session-IsAccounted :
        (p : OpportunityQueue Q A) (cs : List (Option A))
        → 0 < a.capacity p.queue
        → IsAccounted p
        → IsAccounted (session p cs)
    unfolding session
    session-IsAccounted p [] pos h = h
    session-IsAccounted p (some x ∷ cs) pos h =
        session-IsAccounted (push p x) cs (omega (arith, (push-Queued p x pos).bounded))
          (push-IsAccounted p x pos h)
    session-IsAccounted p (none ∷ cs) pos h =
        let (kept, same) = pop-front p (a.contents p.queue) refl h in
        session-IsAccounted (pop p).0 cs (omega (arith, same)) kept

    -- A batch is the oldest opportunities, at most `n`, in order, and the rest stays.
    pub batch_lem :
        (n : ℕ) (p : OpportunityQueue Q A) (xs : List A)
        → a.contents p.queue ≡ xs
        → ((pop_batch n p).1 ≡ take n xs) × (a.contents (pop_batch n p).0.queue ≡ drop n xs)
    unfolding pop_batch pop
    batch_lem zero p xs e = ground arith
    batch_lem (suc n) p [] e = ground (arith, laws.pop_empty p.queue e)
    batch_lem (suc n) p (x ∷ xs) e =
        let p' : OpportunityQueue Q A = record p {
          queue = (a.pop p.queue).0;
          pop_count = inc p.pop_count;
        } in
        ground (
          arith,
          laws.pop_front p.queue x xs e,
          batch_lem n p' xs (laws.pop_front p.queue x xs e).1,
        )
