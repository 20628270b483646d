-- ===== src/Pipeline/Interleaving/Order.antt =====
-- The updates come out in the order in which they were pushed, whatever the schedule.
use funding_spread_arbitrage.Prelude.{
  ◌≡◌, refl, sym, subst, inl, inr, List, [], ◌∷◌, ◌++◌, arith, append-nil, append_assoc, Subseq,
  done, Subseq-append, Subseq-cut,
}
use funding_spread_arbitrage.ArrayQueue.{ArrayQueue, IsFifo}
use funding_spread_arbitrage.Pipeline.Backlog.{pop_cases, push_answers}
use funding_spread_arbitrage.Pipeline.Market.{MarketPipeline}
use funding_spread_arbitrage.Pipeline.Interleaving.{
  System, Producer, Consumer, idle, trying, evicting, retrying, retried, dropping, accepted, ready,
  taken, Action, calls, produces, consumes, call, produce, consume, step, run, start,
}

-- The update that a push has still to place, and the one that a pop has still to return.
abbrev pub pending : {A : Type 0} → Producer A → List A
pending (trying x) = x ∷ []
pending (evicting x) = x ∷ []
pending (retrying x) = x ∷ []
pending _ = []

abbrev pub in_hand : {A : Type 0} → Consumer A → List A
in_hand ready = []
in_hand (taken x) = x ∷ []

-- What a call adds to the updates pushed so far: it is taken only by an idle producer.
abbrev pub entering : {A : Type 0} → Producer A → Action A → List A
entering idle (calls x) = x ∷ []
entering idle _ = []
entering _ _ = []

module _ {Q A : Type 0} ⦃a : ArrayQueue Q A⦄ where
  -- The updates that a schedule pushes, oldest first.
  pub pushed : System Q A → List (Action A) → List A
  pushed s [] = []
  pushed s (c ∷ cs) = entering s.producer c ++ pushed (step s c) cs

  -- All updates that are somewhere in the system, oldest first.
  abbrev pub alive : System Q A → List A
  alive s = (s.received ++ in_hand s.consumer) ++ (a.contents s.pipe.queue ++ pending s.producer)

  module _ (laws : IsFifo Q A) where
    alive-call :
        (s : System Q A) (x : A) → alive (call s x) ≡ alive s ++ entering s.producer (calls x)
    unfolding call
    alive-call s x =
        let taken_out = s.received ++ in_hand s.consumer in
        ground (
          arith,
          append-nil (a.contents s.pipe.queue),
          append-nil (alive s),
          append_assoc taken_out (a.contents s.pipe.queue) (x ∷ []),
        )

    alive-consume : (s : System Q A) → alive (consume s) ≡ alive s
    unfolding consume
    alive-consume s = by_place s.consumer refl
      where
        by_place : (pc : Consumer A) → s.consumer ≡ pc → alive (consume s) ≡ alive s
        by_place (taken x) e = ground (arith, append-nil (s.received ++ x ∷ []))
        by_place ready e = elim (pop_cases laws s.pipe.queue) [
          | inl (empty, answer, rest) ↦ ground arith
          | inr (x, xs, front, answer, rest) ↦ ground (
            arith,
            append-nil s.received,
            append_assoc s.received (x ∷ []) (xs ++ pending s.producer),
          )
        ]

    -- The producer leaves the updates as they are, or drops the oldest of the queue.
    produce-Subseq :
        (s : System Q A) (ws : List A) → Subseq (alive s) ws → Subseq (alive (produce s)) ws
    unfolding produce
    produce-Subseq s ws h = by_place s.producer refl
      where
        front : List A
        front = s.received ++ in_hand s.consumer

        same : alive (produce s) ≡ alive s → Subseq (alive (produce s)) ws
        same e = subst (λ l. Subseq l ws) (sym e) h

        by_place : (pc : Producer A) → s.producer ≡ pc → Subseq (alive (produce s)) ws
        by_place (evicting x) e = elim (pop_cases laws s.pipe.queue) [
          | inl (empty, answer, rest) ↦ same (ground arith)
          | inr (y, ys, oldest, answer, rest) ↦
              let before : alive s ≡ front ++ (y ∷ (ys ++ x ∷ [])) = ground arith in
              let after : alive (produce s) ≡ front ++ (ys ++ x ∷ []) = ground arith in
              subst (λ l. Subseq l ws) (sym after)
                (Subseq-cut front y (ys ++ x ∷ []) (subst (λ l. Subseq l ws) before h))
        ]
        by_place (trying x) e = elim (push_answers laws s.pipe.queue x) [
          | inl (room, answer, rest) ↦
              same (ground (arith, append-nil (a.contents s.pipe.queue ++ x ∷ [])))
          | inr (full, answer, rest) ↦ same (ground arith)
        ]
        by_place (retrying x) e = elim (push_answers laws s.pipe.queue x) [
          | inl (room, answer, rest) ↦
              same (ground (arith, append-nil (a.contents s.pipe.queue ++ x ∷ [])))
          | inr (full, answer, rest) ↦
              let all : List A = a.contents s.pipe.queue in
              let before : alive s ≡ (front ++ all) ++ x ∷ [] =
                ground (arith, append_assoc front all (x ∷ [])) in
              let after : alive (produce s) ≡ (front ++ all) ++ [] =
                ground (arith, append_assoc front all []) in
              subst (λ l. Subseq l ws) (sym after)
                (Subseq-cut (front ++ all) x [] (subst (λ l. Subseq l ws) before h))
        ]
        by_place idle e = same (ground arith)
        by_place retried e = same (ground arith)
        by_place dropping e = same (ground arith)
        by_place accepted e = same (ground arith)

    entering-Subseq :
        (s : System Q A) (c : Action A) (ws : List A)
        → Subseq (alive s) ws
        → Subseq (alive (step s c)) (ws ++ entering s.producer c)
    unfolding step
    entering-Subseq s (calls x) ws h =
        subst (λ l. Subseq l (ws ++ entering s.producer (calls x))) (sym (alive-call s x))
          (Subseq-append (entering s.producer (calls x)) h)
    entering-Subseq s produces ws h =
        let e : ws ++ entering s.producer produces ≡ ws = ground (arith, append-nil ws) in
        rw e (produce-Subseq s ws h)
    entering-Subseq s consumes ws h =
        let e : ws ++ entering s.producer consumes ≡ ws = ground (arith, append-nil ws) in
        rw (e, alive-consume s) h

    pushed-Subseq :
        (s : System Q A) (cs : List (Action A)) (ws : List A)
        → Subseq (alive s) ws
        → Subseq (alive (run s cs)) (ws ++ pushed s cs)
    unfolding run pushed
    pushed-Subseq s [] ws h = rw append-nil h
    pushed-Subseq s (c ∷ cs) ws h =
        subst (Subseq (alive (run (step s c) cs)))
          (append_assoc ws (entering s.producer c) (pushed (step s c) cs))
          (pushed-Subseq (step s c) cs (ws ++ entering s.producer c) (entering-Subseq s c ws h))

    -- From an empty queue, whatever the schedule, the updates that the consumer has received,
    -- followed by those still on their way, are the updates pushed with some left out: none comes
    -- twice, none is made up, and no two change places.
    pub order_kept :
        (p : MarketPipeline Q A) (cs : List (Action A))
        → a.contents p.queue ≡ []
        → Subseq (alive (run (start p) cs)) (pushed (start p) cs)
    order_kept p cs empty = pushed-Subseq (start p) cs [] (rw empty done)
