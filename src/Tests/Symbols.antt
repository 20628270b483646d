-- ===== src/Tests/Symbols.antt =====
-- Two threads that ask for ids at the same time.
use funding_spread_arbitrage.Prelude.{
  ℕ, ◌≡◌, ◌↔◌, ◌⊎◌, refl, List, [], ◌∷◌, ◌++◌, none, some, arith,
}
use funding_spread_arbitrage.DashMap.Assoc.{key_ℕ, key_pair, assoc_map, Assoc-IsMap}
use funding_spread_arbitrage.SymbolMap.{SymbolMap, Pair, fresh, get}
use funding_spread_arbitrage.SymbolMap.Laws.{fresh-IsSymbolMap}
use funding_spread_arbitrage.SymbolMap.Threads.{Action, calls, runs, done, naming, step, run, start}
use funding_spread_arbitrage.SymbolMap.Threads.Agree.{threads_agree}

abbrev empty : SymbolMap (List (Pair × ℕ)) (List (ℕ × Pair))
empty = fresh

abbrev bitcoin : Pair
bitcoin = ("okx", "BTCUSDT")

-- Both threads miss the pair and draw an id; the second enters first.
abbrev race : List Action
race = calls 0 bitcoin ∷ calls 1 bitcoin ∷ runs 0 ∷ runs 1 ∷ runs 0 ∷ runs 1 ∷ runs 1 ∷ runs 0 ∷ []

-- Thread 0 answers with the id 2 of thread 1, which `get` does not know yet.
early-answer :
    ((run (start empty) race).at 0 ≡ done bitcoin 2)
    × ((run (start empty) race).at 1 ≡ naming bitcoin 2)
    × (get (run (start empty) race).map 2 ≡ none)
unfolding run step get
early-answer = (refl, refl, refl)

abbrev race_over : List Action
race_over = race ++ (runs 1 ∷ [])

abbrev id : ℕ
id = 2

threads_agree_example :
    ((id ≡ id) ↔ (bitcoin ≡ bitcoin))
    × ((get (run (start empty) race_over).map 2 ≡ none)
        ⊎ (get (run (start empty) race_over).map 2 ≡ some bitcoin))
unfolding run step
threads_agree_example =
    threads_agree Assoc-IsMap Assoc-IsMap empty race_over 0 1 bitcoin bitcoin id id (omega arith)
      (fresh-IsSymbolMap Assoc-IsMap Assoc-IsMap) refl refl
