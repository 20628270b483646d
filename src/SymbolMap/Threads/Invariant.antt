-- ===== src/SymbolMap/Threads/Invariant.antt =====
-- The invariant of the threads in `get_or_insert`, and each operation's part in it.
use funding_spread_arbitrage.Prelude.{
  ℕ, suc, ◌^◌, ◌≤◌, ◌<◌, ◌≡◌, ◌≢◌, ◌⊎◌, refl, Option, none, some, arith,
}
use funding_spread_arbitrage.DashMap.{DashMap, IsMap}
use funding_spread_arbitrage.SymbolMap.{Pair, next}
use funding_spread_arbitrage.SymbolMap.Threads.{
  Thread, numbered, naming, done, Threads, put, moved, with_map,
}

-- The id that a thread has drawn and not yet entered, and the pair and id that it answers with.
abbrev pub drawn : Thread → Option ℕ
drawn (numbered key id) = some id
drawn _ = none

abbrev pub answer : Thread → Option (Pair × ℕ)
answer (naming key id) = some (key, id)
answer (done key id) = some (key, id)
answer _ = none

put-cases :
    (at : ℕ → Thread) (i j : ℕ) (v : Thread)
    → ((i ≡ j) × (put at i v j ≡ v)) ⊎ ((i ≢ j) × (put at i v j ≡ at j))
put-cases at i j v = ground arith

module _ {M N : Type 0} ⦃t : DashMap M Pair ℕ⦄ ⦃f : DashMap N ℕ Pair⦄ where
  pub record Inv (n : ℕ) (s : Threads M N) : Type 0 where
    pub small : s.map.next_id ≤ n
    pub below : (k : Pair) (id : ℕ) → t.get s.map.to_id k ≡ some id → id < s.map.next_id
    pub injective :
        (k l : Pair) (id : ℕ)
        → t.get s.map.to_id k ≡ some id
        → t.get s.map.to_id l ≡ some id
        → k ≡ l
    pub named :
        (k : Pair) (id : ℕ) → f.get s.map.from_id id ≡ some k → t.get s.map.to_id k ≡ some id
    pub fresh : (i id : ℕ) → drawn (s.at i) ≡ some id → id < s.map.next_id
    pub unused : (i id : ℕ) (k : Pair) → drawn (s.at i) ≡ some id → t.get s.map.to_id k ≢ some id
    pub alone : (i j id : ℕ) → drawn (s.at i) ≡ some id → drawn (s.at j) ≡ some id → i ≡ j
    pub answers :
        (i id : ℕ) (k : Pair) → answer (s.at i) ≡ some (k, id) → t.get s.map.to_id k ≡ some id

  -- A thread moves on without touching the map.
  pub moved-Inv :
      (n : ℕ) (s : Threads M N) (i : ℕ) (v : Thread)
      → drawn v ≡ none
      → ((k : Pair) (id : ℕ) → answer v ≡ some (k, id) → t.get s.map.to_id k ≡ some id)
      → Inv n s
      → Inv n (moved s i v)
  moved-Inv n s i v undrawn right w = record {
    small = w.small;
    below = w.below;
    injective = w.injective;
    named = w.named;
    fresh = λ j id h. ground (arith, put-cases s.at i j v, w.fresh j id);
    unused = λ j id k h. ground (arith, put-cases s.at i j v, w.unused j id k);
    alone =
        λ j l id h g. ground (arith, put-cases s.at i j v, put-cases s.at i l v, w.alone j l id);
    answers = λ j id k h. ground (arith, put-cases s.at i j v, w.answers j id k, right k id);
  }

  pub later-Inv : (n : ℕ) (s : Threads M N) → Inv n s → Inv (suc n) s
  later-Inv n s w = record {
    small = omega (arith, w.small);
    below = w.below;
    injective = w.injective;
    named = w.named;
    fresh = w.fresh;
    unused = w.unused;
    alone = w.alone;
    answers = w.answers;
  }

  -- A thread draws the next id.
  pub drawn-Inv :
      (n : ℕ) (s : Threads M N) (i : ℕ) (key : Pair)
      → suc n < 2 ^ 32
      → Inv n s
      → Inv (suc n) (
          with_map s (record s.map { next_id = next s.map.next_id }) i (numbered key s.map.next_id))
  drawn-Inv n s i key h w =
      let v = numbered key s.map.next_id in
      let e : next s.map.next_id ≡ suc s.map.next_id = omega (arith, w.small) in
      record {
        small = omega (arith, e, w.small);
        below = λ k id g. omega (arith, e, w.below k id g);
        injective = w.injective;
        named = w.named;
        fresh = λ j id g. ground (arith, e, put-cases s.at i j v, w.fresh j id);
        unused =
            λ j id k g l. ground (arith, put-cases s.at i j v, w.unused j id k, w.below k id l);
        alone = λ j l id g k. ground (
          arith,
          put-cases s.at i j v,
          put-cases s.at i l v,
          w.alone j l id,
          w.fresh j id,
          w.fresh l id,
        );
        answers = λ j id k g. ground (arith, put-cases s.at i j v, w.answers j id k);
      }

  module _ (to_laws : IsMap M Pair ℕ) (from_laws : IsMap N ℕ Pair) where
    -- A thread enters its pair under the id that it has drawn.
    pub entered-Inv :
        (n : ℕ) (s : Threads M N) (i : ℕ) (key : Pair) (new_id : ℕ)
        → s.at i ≡ numbered key new_id
        → t.get s.map.to_id key ≡ none
        → Inv n s
        → Inv n (
            with_map s
              (record s.map { to_id = t.insert s.map.to_id key new_id })
              i
              (naming key new_id))
    entered-Inv n s i key new_id here missing w =
        let v = naming key new_id in
        let got = to_laws.get-insert s.map.to_id key new_id in
        let mine : drawn (s.at i) ≡ some new_id = rw here refl in
        record {
          small = w.small;
          below = λ k id g. ground (arith, got k, w.below k id, w.fresh i new_id mine);
          injective = λ k l id g h. ground (
            arith,
            got k,
            got l,
            w.injective k l id,
            w.unused i new_id k mine,
            w.unused i new_id l mine,
          );
          named = λ k id g. ground (arith, got k, w.named k id g);
          fresh = λ j id g. ground (arith, put-cases s.at i j v, w.fresh j id);
          unused = λ j id k g h.
              ground (arith, got k, put-cases s.at i j v, w.unused j id k, w.alone i j new_id mine);
          alone = λ j l id g h.
              ground (arith, put-cases s.at i j v, put-cases s.at i l v, w.alone j l id);
          answers = λ j id k g. ground (arith, got k, put-cases s.at i j v, w.answers j id k);
        }

    -- A thread names the id that it has entered.
    pub named-Inv :
        (n : ℕ) (s : Threads M N) (i : ℕ) (key : Pair) (id : ℕ)
        → s.at i ≡ naming key id
        → Inv n s
        → Inv n
            (with_map s (record s.map { from_id = f.insert s.map.from_id id key }) i (done key id))
    named-Inv n s i key id here w =
        let right : t.get s.map.to_id key ≡ some id = w.answers i id key (rw here refl) in
        let rest = moved-Inv n s i (done key id) refl (λ k x h. ground arith) w in
        record {
          small = w.small;
          below = w.below;
          injective = w.injective;
          named = λ k x g. ground (arith, from_laws.get-insert s.map.from_id id key x, w.named k x);
          fresh = rest.fresh;
          unused = rest.unused;
          alone = rest.alone;
          answers = rest.answers;
        }
