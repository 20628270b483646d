-- ===== src/Pipeline/Interleaving/Invariant.antt =====
-- What holds between any two atomic operations of the two threads.
use native.Mathlib.Nat.{add-zero}
use funding_spread_arbitrage.Prelude.{
  ℕ, suc, ◌+◌, ◌^◌, ◌≤◌, ◌<◌, ◌≡◌, refl, List, [], ◌∷◌, arith, length, length-append, inl, inr,
}
use funding_spread_arbitrage.ArrayQueue.{ArrayQueue, IsFifo}
use funding_spread_arbitrage.Pipeline.Backlog.{pop_cases, push_answers}
use funding_spread_arbitrage.Pipeline.Interleaving.{
  System, Producer, Consumer, idle, trying, evicting, retrying, retried, dropping, accepted, ready,
  taken, Action, calls, produces, consumes, call, produce, consume, step, run,
}

-- A push whose `enqueue_count` is still to be raised.
abbrev pub open_push : {A : Type 0} → Producer A → ℕ
open_push idle = 0
open_push dropping = 0
open_push _ = 1

-- An entry that is in the queue, or was, and not yet in `enqueue_count`.
abbrev pub uncounted : {A : Type 0} → Producer A → ℕ
uncounted retried = 1
uncounted accepted = 1
uncounted _ = 0

-- A pop of the producer that is not yet in `drop_count`.
abbrev pub open_drop : {A : Type 0} → Producer A → ℕ
open_drop (retrying _) = 1
open_drop retried = 1
open_drop dropping = 1
open_drop _ = 0

-- An entry that left the queue and is not yet in `pop_count`.
abbrev pub open_pop : {A : Type 0} → Consumer A → ℕ
open_pop ready = 0
open_pop (taken _) = 1

-- Whether a push that finds no room is at its second attempt.
abbrev pub retries : {A : Type 0} → Producer A → ℕ
retries (retrying _) = 1
retries _ = 0

module _ {Q A : Type 0} ⦃a : ArrayQueue Q A⦄ where
  abbrev pub held : System Q A → ℕ
  held s = length (a.contents s.pipe.queue)

  -- After n steps no counter is above n, so below 2^64 steps none has wrapped.
  pub record Inv (cap n : ℕ) (s : System Q A) : Type 0 where
    pub capacity : a.capacity s.pipe.queue ≡ cap
    pub pushes_le : s.pipe.push_count ≤ n
    pub enqueues_le : s.pipe.enqueue_count + open_push s.producer ≤ n
    pub drops_le : s.pipe.drop_count + open_drop s.producer ≤ n
    pub pops_le : s.pipe.pop_count + open_pop s.consumer ≤ n
    pub pushes : s.pipe.push_count ≡ s.pipe.enqueue_count + open_push s.producer
    pub room : held s + retries s.producer ≤ cap
    pub kept :
        s.pipe.pop_count + open_pop s.consumer + held s
        ≤ s.pipe.enqueue_count + uncounted s.producer
    pub lost :
        s.pipe.enqueue_count + uncounted s.producer
        ≤ s.pipe.pop_count + open_pop s.consumer + held s + s.pipe.drop_count + open_drop s.producer

  module _ (laws : IsFifo Q A) {cap n : ℕ} (small : suc n < 2 ^ 64) (pos : 0 < cap) where
    call-Inv : (s : System Q A) (x : A) → Inv cap n s → Inv cap (suc n) (call s x)
    unfolding call
    call-Inv s x v = ground arith

    consume-Inv : (s : System Q A) → Inv cap n s → Inv cap (suc n) (consume s)
    unfolding consume
    consume-Inv s v = elim (pop_cases laws s.pipe.queue) [
      | inl (e, answer, rest) ↦ ground (arith, laws.capacity-pop s.pipe.queue)
      | inr (x, xs, e, answer, rest) ↦ ground (arith, laws.capacity-pop s.pipe.queue)
    ]

    first_push-Inv :
        (s : System Q A) (x : A) → s.producer ≡ trying x → Inv cap n s → Inv cap (suc n) (produce s)
    unfolding produce
    first_push-Inv s x e v = elim (push_answers laws s.pipe.queue x) [
      | inl (room, answer, rest) ↦ ground (
        arith,
        laws.capacity-push s.pipe.queue x,
        length-append (a.contents s.pipe.queue) (x ∷ []),
      )
      | inr (full, answer, rest) ↦ ground (arith, laws.capacity-push s.pipe.queue x)
    ]

    evict-Inv :
        (s : System Q A) (x : A)
        → s.producer ≡ evicting x
        → Inv cap n s
        → Inv cap (suc n) (produce s)
    unfolding produce
    evict-Inv s x e v = elim (pop_cases laws s.pipe.queue) [
      | inl (nothing, answer, rest) ↦ ground (arith, laws.capacity-pop s.pipe.queue)
      | inr (y, ys, some_left, answer, rest) ↦ ground (arith, laws.capacity-pop s.pipe.queue)
    ]

    second_push-Inv :
        (s : System Q A) (x : A)
        → s.producer ≡ retrying x
        → Inv cap n s
        → Inv cap (suc n) (produce s)
    unfolding produce
    second_push-Inv s x e v = elim (push_answers laws s.pipe.queue x) [
      | inl (room, answer, rest) ↦ ground (
        arith,
        laws.capacity-push s.pipe.queue x,
        length-append (a.contents s.pipe.queue) (x ∷ []),
      )
      | inr (full, answer, rest) ↦ ground arith
    ]

    produce-Inv :
        (s : System Q A) (pc : Producer A)
        → s.producer ≡ pc
        → Inv cap n s
        → Inv cap (suc n) (produce s)
    unfolding produce
    produce-Inv s (trying x) e v = first_push-Inv s x e v
    produce-Inv s (evicting x) e v = evict-Inv s x e v
    produce-Inv s (retrying x) e v = second_push-Inv s x e v
    produce-Inv s idle e v = ground arith
    produce-Inv s retried e v = ground arith
    produce-Inv s dropping e v = ground arith
    produce-Inv s accepted e v = ground arith

    step-Inv : (s : System Q A) (c : Action A) → Inv cap n s → Inv cap (suc n) (step s c)
    unfolding step
    step-Inv s (calls x) v = call-Inv s x v
    step-Inv s produces v = produce-Inv s s.producer refl v
    step-Inv s consumes v = consume-Inv s v

  -- However the threads' steps are mixed, the invariant holds after every one of them.
  pub run-Inv :
      IsFifo Q A
      → (cap n : ℕ) (s : System Q A) (cs : List (Action A)) → 0 < cap
      → n + length cs < 2 ^ 64
      → Inv cap n s
      → Inv cap (n + length cs) (run s cs)
  unfolding run
  run-Inv laws cap n s [] pos small v = rw add-zero v
  run-Inv laws cap n s (c ∷ cs) pos small v =
      let e : n + suc (length cs) ≡ suc n + length cs = omega arith in
      rw e (
        run-Inv laws cap (suc n) (step s c) cs pos (omega arith)
          (step-Inv laws (omega arith) pos s c v))
