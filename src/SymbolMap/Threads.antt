-- ===== src/SymbolMap/Threads.antt =====
-- `SymbolMap::get_or_insert` of src/strategy/symbol_map.rs, taken apart into its atomic operations, as
-- any number of threads run it at the same time. A schedule is the sequence in which they take them.
pub mod Invariant
pub mod Agree
use funding_spread_arbitrage.Prelude.{ℕ, List, [], ◌∷◌, Option, none, some, ◌==◌, if◌then◌else◌}
use funding_spread_arbitrage.DashMap.{DashMap}
use funding_spread_arbitrage.SymbolMap.{SymbolMap, Pair, next}

-- Where a thread stands: the next operation of its call.
pub data Thread : Type 0 where
  idle : Thread
  looking : Pair → Thread  -- next, `to_id.get`
  missed : Pair → Thread  -- next, `next_id.fetch_add`
  numbered : Pair → ℕ → Thread  -- next, `to_id.entry` and its insertion
  naming : Pair → ℕ → Thread  -- next, `from_id.insert`
  done : Pair → ℕ → Thread  -- the call has answered

pub record Threads (M N : Type 0) : Type 0 where
  pub map : SymbolMap M N
  pub at : ℕ → Thread

-- A thread enters a call, or takes its next operation.
pub data Action : Type 0 where
  calls : ℕ → Pair → Action
  runs : ℕ → Action

abbrev pub put : (ℕ → Thread) → ℕ → Thread → ℕ → Thread
put at i v j = if i == j then v else at j

module _ {M N : Type 0} ⦃t : DashMap M Pair ℕ⦄ ⦃f : DashMap N ℕ Pair⦄ where
  abbrev moved : Threads M N → ℕ → Thread → Threads M N
  moved s i v = record s { at = put s.at i v }

  abbrev with_map : Threads M N → SymbolMap M N → ℕ → Thread → Threads M N
  with_map s m i v = record { map = m; at = put s.at i v }

  abbrev looked_up : Threads M N → ℕ → Pair → Option ℕ → Threads M N
  looked_up s i key (some id) = moved s i (done key id)
  looked_up s i key none = moved s i (missed key)

  abbrev entered : Threads M N → ℕ → Pair → ℕ → Option ℕ → Threads M N
  entered s i key new_id (some id) = moved s i (done key id)
  entered s i key new_id none =
      with_map s (record s.map { to_id = t.insert s.map.to_id key new_id }) i (naming key new_id)

  run_at : Threads M N → ℕ → Thread → Threads M N
  run_at s i idle = s
  run_at s i (looking key) = looked_up s i key (t.get s.map.to_id key)
  run_at s i (missed key) =
      with_map s (record s.map { next_id = next s.map.next_id }) i (numbered key s.map.next_id)
  run_at s i (numbered key id) = entered s i key id (t.get s.map.to_id key)
  run_at s i (naming key id) =
      with_map s (record s.map { from_id = f.insert s.map.from_id id key }) i (done key id)
  run_at s i (done key id) = s

  -- A thread has one call at a time.
  call_at : Threads M N → ℕ → Pair → Thread → Threads M N
  call_at s i key idle = moved s i (looking key)
  call_at s i key (done _ _) = moved s i (looking key)
  call_at s i key _ = s

  unfoldable pub step : Threads M N → Action → Threads M N
  unfolding run_at call_at
  step s (calls i key) = call_at s i key (s.at i)
  step s (runs i) = run_at s i (s.at i)

  unfoldable pub run : Threads M N → List Action → Threads M N
  unfolding step
  run s [] = s
  run s (c ∷ cs) = run (step s c) cs

  abbrev pub start : SymbolMap M N → Threads M N
  start m = record { map = m; at = λ _. idle }
