-- ===== src/ArrayQueue/Slots.antt =====
-- A queue that meets the interface: the values and the number of free slots.
use funding_spread_arbitrage.Prelude.{
  ℕ, zero, suc, ◌+◌, ◌≤◌, ◌<◌, ◌≡◌, refl, List, [], ◌∷◌, ◌++◌, Option, none, some, length,
  length-append, arith,
}
use funding_spread_arbitrage.ArrayQueue.Defs.{ArrayQueue, IsFifo}

pub record Slots (A : Type 0) : Type 0 where
  pub items : List A
  pub free : ℕ

module _ {A : Type 0} where
  abbrev push_into : List A → ℕ → A → Slots A × Option A
  push_into xs zero x = (record { items = xs; free = 0 }, some x)
  push_into xs (suc n) x = (record { items = xs ++ x ∷ []; free = n }, none)

  abbrev pop_from : List A → ℕ → Slots A × Option A
  pop_from [] n = (record { items = []; free = n }, none)
  pop_from (x ∷ xs) n = (record { items = xs; free = suc n }, some x)

  instance abbrev pub slots_queue : ArrayQueue (Slots A) A
  slots_queue = record {
    new = λ n. record { items = []; free = n };
    push = λ q x. push_into q.items q.free x;
    pop = λ q. pop_from q.items q.free;
    len = λ q. length q.items;
    capacity = λ q. length q.items + q.free;
    contents = λ q. q.items;
  }

  push_room :
      (xs : List A) (n : ℕ) (x : A)
      → length xs < length xs + n
      → ((push_into xs n x).1 ≡ none) × ((push_into xs n x).0.items ≡ xs ++ x ∷ [])
  push_room xs zero x h = absurd (omega arith)
  push_room xs (suc n) x h = (refl, refl)

  push_full :
      (xs : List A) (n : ℕ) (x : A)
      → length xs + n ≤ length xs
      → ((push_into xs n x).1 ≡ some x) × ((push_into xs n x).0.items ≡ xs)
  push_full xs zero x h = (refl, refl)
  push_full xs (suc n) x h = absurd (omega arith)

  capacity-push :
      (xs : List A) (n : ℕ) (x : A)
      → length (push_into xs n x).0.items + (push_into xs n x).0.free ≡ length xs + n
  capacity-push xs zero x = refl
  capacity-push xs (suc n) x = omega (arith, length-append xs (x ∷ []))

  capacity-pop :
      (xs : List A) (n : ℕ)
      → length (pop_from xs n).0.items + (pop_from xs n).0.free ≡ length xs + n
  capacity-pop [] n = refl
  capacity-pop (x ∷ xs) n = omega arith

  pub Slots-IsFifo : IsFifo (Slots A) A
  Slots-IsFifo = record {
    contents-new = λ n h. refl;
    capacity-new = λ n h. omega arith;
    bounded = λ q. omega arith;
    len_lem = λ q. refl;
    push_room = λ q. push_room q.items q.free;
    push_full = λ q. push_full q.items q.free;
    capacity-push = λ q. capacity-push q.items q.free;
    pop_empty = λ q h. ground arith;
    pop_front = λ q x xs h. ground arith;
    capacity-pop = λ q. capacity-pop q.items q.free;
  }
