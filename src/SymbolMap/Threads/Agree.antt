-- ===== src/SymbolMap/Threads/Agree.antt =====
-- Whatever the schedule, an id belongs to one pair, and a pair has one id.
use funding_spread_arbitrage.Prelude.{
  ℕ, suc, ◌+◌, ◌^◌, ◌<◌, ◌≡◌, ◌↔◌, ◌⊎◌, inl, inr, refl, ap, ◌∙◌, subst, List, [], ◌∷◌, none, some,
  length, arith, Option-cases,
}
use funding_spread_arbitrage.DashMap.{DashMap, IsMap}
use funding_spread_arbitrage.SymbolMap.{SymbolMap, Pair, get}
use funding_spread_arbitrage.SymbolMap.Laws.{IsSymbolMap}
use funding_spread_arbitrage.SymbolMap.Threads.{
  Thread, idle, looking, missed, numbered, naming, done, Threads, Action, calls, runs, moved,
  run_at, call_at, step, run, start,
}
use funding_spread_arbitrage.SymbolMap.Threads.Invariant.{
  Inv, moved-Inv, later-Inv, drawn-Inv, entered-Inv, named-Inv,
}

module _ {M N : Type 0} ⦃t : DashMap M Pair ℕ⦄ ⦃f : DashMap N ℕ Pair⦄ where
  module _ (to_laws : IsMap M Pair ℕ) (from_laws : IsMap N ℕ Pair) where
    run_at-Inv :
        (n : ℕ) (s : Threads M N) (i : ℕ) (pc : Thread)
        → s.at i ≡ pc
        → suc n < 2 ^ 32
        → Inv n s
        → Inv (suc n) (run_at s i pc)
    unfolding run_at
    run_at-Inv n s i idle e h w = later-Inv n s w
    run_at-Inv n s i (done key id) e h w = later-Inv n s w
    run_at-Inv n s i (missed key) e h w = drawn-Inv n s i key h w
    run_at-Inv n s i (naming key id) e h w =
        later-Inv n (run_at s i (naming key id)) (named-Inv to_laws from_laws n s i key id e w)
    run_at-Inv n s i (looking key) e h w = elim (Option-cases (t.get s.map.to_id key)) [
      | inl missing ↦ rw missing (
          later-Inv n (moved s i (missed key))
            (moved-Inv n s i (missed key) refl (λ k id g. ground arith) w))
      | inr (id, found) ↦ rw found (
          later-Inv n (moved s i (done key id))
            (moved-Inv n s i (done key id) refl (λ k x g. ground arith) w))
    ]
    run_at-Inv n s i (numbered key id) e h w = elim (Option-cases (t.get s.map.to_id key)) [
      | inl missing ↦
          rw missing (later-Inv n _ (entered-Inv to_laws from_laws n s i key id e missing w))
      | inr (x, found) ↦ rw found (
          later-Inv n (moved s i (done key x))
            (moved-Inv n s i (done key x) refl (λ k y g. ground arith) w))
    ]

    call_at-Inv :
        (n : ℕ) (s : Threads M N) (i : ℕ) (key : Pair) (pc : Thread)
        → Inv n s
        → Inv (suc n) (call_at s i key pc)
    unfolding call_at
    call_at-Inv n s i key idle w =
        later-Inv n (moved s i (looking key))
          (moved-Inv n s i (looking key) refl (λ k id g. ground arith) w)
    call_at-Inv n s i key (done _ _) w =
        later-Inv n (moved s i (looking key))
          (moved-Inv n s i (looking key) refl (λ k id g. ground arith) w)
    call_at-Inv n s i key (looking _) w = later-Inv n s w
    call_at-Inv n s i key (missed _) w = later-Inv n s w
    call_at-Inv n s i key (numbered _ _) w = later-Inv n s w
    call_at-Inv n s i key (naming _ _) w = later-Inv n s w

    step-Inv :
        (n : ℕ) (s : Threads M N) (c : Action) → suc n < 2 ^ 32 → Inv n s → Inv (suc n) (step s c)
    unfolding step
    step-Inv n s (calls i key) h w = call_at-Inv n s i key (s.at i) w
    step-Inv n s (runs i) h w = run_at-Inv n s i (s.at i) refl h w

    run-Inv :
        (n : ℕ) (s : Threads M N) (cs : List Action)
        → n + length cs < 2 ^ 32
        → Inv n s
        → Inv (n + length cs) (run s cs)
    unfolding run
    run-Inv n s [] h w = subst (λ m. Inv m s) (omega arith) w
    run-Inv n s (c ∷ cs) h w =
        subst (λ m. Inv m (run (step s c) cs)) (omega arith)
          (run-Inv (suc n) (step s c) cs (omega arith) (step-Inv n s c (omega arith) w))

    start-Inv : (m : SymbolMap M N) → IsSymbolMap m → Inv m.next_id (start m)
    start-Inv m w = record {
      small = omega arith;
      below = w.below;
      injective = λ k l id g h. ground (arith, w.named k id g, w.named l id h);
      named = w.numbered;
      fresh = λ i id g. ground arith;
      unused = λ i id k g. ground arith;
      alone = λ i j id g h. ground arith;
      answers = λ i id k g. ground arith;
    }

    -- From a well-formed map, in a schedule too short for the ids to reach 2^32: two calls that
    -- have answered gave the same id exactly when they asked for the same pair; and `get` answers
    -- for that id with that pair, if with any.
    pub threads_agree :
        (m : SymbolMap M N) (cs : List Action) (i j : ℕ) (k l : Pair) (x y : ℕ)
        → m.next_id + length cs < 2 ^ 32
        → IsSymbolMap m
        → (run (start m) cs).at i ≡ done k x
        → (run (start m) cs).at j ≡ done l y
        → ((x ≡ y) ↔ (k ≡ l))
          × ((get (run (start m) cs).map x ≡ none) ⊎ (get (run (start m) cs).map x ≡ some k))
    unfolding get
    threads_agree m cs i j k l x y h w di dj =
        let s = run (start m) cs in
        let inv = run-Inv m.next_id (start m) cs h (start-Inv m w) in
        let ki : t.get s.map.to_id k ≡ some x = inv.answers i x k (rw di refl) in
        let lj : t.get s.map.to_id l ≡ some y = inv.answers j y l (rw dj refl) in
        (
          (λ e. inv.injective k l x ki (rw e lj), λ e. ground arith),
          elim (Option-cases (f.get s.map.from_id x)) [
            | inl missing ↦ inl missing
            | inr (p, found) ↦ inr (found ∙ ap some (inv.injective p k x (inv.named p x found) ki))
          ],
        )
