-- ===== src/Pipeline/Backlog.antt =====
-- What the three producers share: a push that is refused, a pop of the oldest entry, and a second
-- push. Seen as a list, a queue of capacity n then holds the last n entries.
use funding_spread_arbitrage.Prelude.{
  ℕ, suc, ◌+◌, ◌%◌, ◌^◌, ◌≤◌, ◌<◌, ◌≡◌, refl, sym, ap, ◌∙◌, ◌⊎◌, inl, inr, List, [], ◌∷◌, ◌++◌,
  none, some, arith, ltb, Bool-cases, length, keep_last, length-append, keep_last-of_le,
  keep_last-cons,
}
use funding_spread_arbitrage.ArrayQueue.{ArrayQueue, IsFifo}

-- `fetch_add(1)` on an `AtomicU64`, which wraps.
abbrev pub inc : ℕ → ℕ
inc n = (n + 1) % 2 ^ 64

module _ {Q A : Type 0} ⦃a : ArrayQueue Q A⦄ where
  -- The queue had room.
  pub record Room (q : Q) (x : A) : Type 0 where
    pub room : length (a.contents q) < a.capacity q
    pub accepted : (a.push q x).1 ≡ none
    pub holds : a.contents (a.push q x).0 ≡ keep_last (a.capacity q) (a.contents q ++ x ∷ [])
    pub kept : a.capacity (a.push q x).0 ≡ a.capacity q

  -- The queue that the pop between the two pushes leaves.
  abbrev pub evicted : Q → A → Q
  evicted q x = (a.pop (a.push q x).0).0

  -- The queue was full: the first push fails, the second does not.
  pub record Full (q : Q) (x : A) : Type 0 where
    pub full : a.capacity q ≤ length (a.contents q)
    pub refused : (a.push q x).1 ≡ some x
    pub accepted : (a.push (evicted q x) x).1 ≡ none
    pub holds :
        a.contents (a.push (evicted q x) x).0 ≡ keep_last (a.capacity q) (a.contents q ++ x ∷ [])
    pub kept : a.capacity (a.push (evicted q x) x).0 ≡ a.capacity q

  module _ (laws : IsFifo Q A) where
    push-Room : (q : Q) (x : A) → length (a.contents q) < a.capacity q → Room q x
    push-Room q x h = record {
      room = h;
      accepted = (laws.push_room q x h).0;
      holds = (laws.push_room q x h).1 ∙ sym (keep_last-of_le _ _ small);
      kept = laws.capacity-push q x;
    }
      where
        small : length (a.contents q ++ x ∷ []) ≤ a.capacity q
        small = omega (arith, length-append (a.contents q) (x ∷ []))

    -- Of a full queue the pop drops the head, which makes room for one.
    push-Full :
        (q : Q) (x y : A) (ys : List A)
        → a.contents q ≡ y ∷ ys
        → a.capacity q ≤ length (a.contents q)
        → Full q x
    push-Full q x y ys e h = record {
      full = h;
      refused = refused.0;
      accepted = (laws.push_room (evicted q x) x room).0;
      holds = (laws.push_room (evicted q x) x room).1 ∙ rw (popped, e) (sym last);
      kept = laws.capacity-push (evicted q x) x ∙ same;
    }
      where
        refused : ((a.push q x).1 ≡ some x) × (a.contents (a.push q x).0 ≡ a.contents q)
        refused = laws.push_full q x h

        popped : a.contents (evicted q x) ≡ ys
        popped = (laws.pop_front (a.push q x).0 y ys (refused.1 ∙ e)).1

        same : a.capacity (evicted q x) ≡ a.capacity q
        same = laws.capacity-pop (a.push q x).0 ∙ laws.capacity-push q x

        size : suc (length ys) ≡ a.capacity q
        size = omega (arith, laws.bounded q, ap length e)

        room : length (a.contents (evicted q x)) < a.capacity (evicted q x)
        room = omega (arith, ap length popped, same, size)

        last : keep_last (a.capacity q) ((y ∷ ys) ++ x ∷ []) ≡ ys ++ x ∷ []
        last =
            rw (← size) (
              keep_last-cons y (ys ++ x ∷ []) (length ys) (length-append ys (x ∷ []) ∙ omega arith))

    -- A push finds room or evicts, and nothing else.
    pub push_cases : (q : Q) (x : A) → 0 < a.capacity q → Room q x ⊎ Full q x
    push_cases q x pos = elim (Bool-cases (ltb (length (a.contents q)) (a.capacity q))) [
      | inl room ↦ inl (push-Room q x (ground arith))
      | inr full ↦ inr (of_list (a.contents q) refl (ground arith))
    ]
      where
        of_list :
            (xs : List A) → a.contents q ≡ xs → a.capacity q ≤ length (a.contents q) → Full q x
        of_list [] e h = absurd (omega (arith, ap length e))
        of_list (y ∷ ys) e h = push-Full q x y ys e h

    -- A pop finds nothing, or the oldest entry.
    pub pop_cases :
        (q : Q)
        → ((a.contents q ≡ []) × ((a.pop q).1 ≡ none) × (a.contents (a.pop q).0 ≡ []))
          ⊎ ((x : A) × (xs : List A) × (a.contents q ≡ x ∷ xs)
              × ((a.pop q).1 ≡ some x)
              × (a.contents (a.pop q).0 ≡ xs))
    pop_cases q = of_list (a.contents q) refl
      where
        of_list :
            (xs : List A)
            → a.contents q ≡ xs
            → ((a.contents q ≡ []) × ((a.pop q).1 ≡ none) × (a.contents (a.pop q).0 ≡ []))
              ⊎ ((x : A) × (xs : List A) × (a.contents q ≡ x ∷ xs)
                  × ((a.pop q).1 ≡ some x)
                  × (a.contents (a.pop q).0 ≡ xs))
        of_list [] e = let (answer, rest) = laws.pop_empty q e in inl (e, answer, rest)
        of_list (x ∷ xs) e =
            let (answer, rest) = laws.pop_front q x xs e in inr (x, xs, e, answer, rest)

    -- A push is accepted with room, or refused without.
    pub push_answers :
        (q : Q) (x : A)
        → ((length (a.contents q) < a.capacity q)
            × ((a.push q x).1 ≡ none)
            × (a.contents (a.push q x).0 ≡ a.contents q ++ x ∷ []))
          ⊎ ((a.capacity q ≤ length (a.contents q))
              × ((a.push q x).1 ≡ some x)
              × (a.contents (a.push q x).0 ≡ a.contents q))
    push_answers q x = elim (Bool-cases (ltb (length (a.contents q)) (a.capacity q))) [
      | inl t ↦
          let room : length (a.contents q) < a.capacity q = ground arith in
          let (answer, rest) = laws.push_room q x room in inl (room, answer, rest)
      | inr t ↦
          let full : a.capacity q ≤ length (a.contents q) = ground arith in
          let (answer, rest) = laws.push_full q x full in inr (full, answer, rest)
    ]
