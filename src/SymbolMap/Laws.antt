-- ===== src/SymbolMap/Laws.antt =====
-- The two directions of the map agree, and an id never changes its pair.
use Prim.Native.String.{String}
use native.Mathlib.Nat.{suc-mul}
use funding_spread_arbitrage.Prelude.{
  ℕ, suc, ◌+◌, ◌*◌, ◌^◌, ◌≤◌, ◌<◌, ◌≡◌, ◌↔◌, inl, inr, List, [], ◌∷◌, none, some, arith, length,
  Option-cases,
}
use funding_spread_arbitrage.DashMap.{DashMap, IsMap}
use funding_spread_arbitrage.SymbolMap.{
  SymbolMap, Pair, get_or_insert, get, preallocate_symbols, preallocate, fresh, new,
  common_exchanges, common_symbols,
}

module _ {M N : Type 0} ⦃t : DashMap M Pair ℕ⦄ ⦃f : DashMap N ℕ Pair⦄ where
  -- The two maps are inverse to each other; every id is below the counter, and there are fewer
  -- pairs than it says.
  pub record IsSymbolMap (s : SymbolMap M N) : Type 0 where
    pub named : (key : Pair) (id : ℕ) → t.get s.to_id key ≡ some id → f.get s.from_id id ≡ some key
    pub numbered :
        (key : Pair) (id : ℕ) → f.get s.from_id id ≡ some key → t.get s.to_id key ≡ some id
    pub below : (key : Pair) (id : ℕ) → t.get s.to_id key ≡ some id → id < s.next_id
    pub counted : suc (t.len s.to_id) ≡ s.next_id

  -- What one call does.
  pub record Answers (s : SymbolMap M N) (key : Pair) (r : SymbolMap M N × ℕ) : Type 0 where
    pub well : IsSymbolMap r.0
    pub answer : t.get r.0.to_id key ≡ some r.1
    pub keeps : (l : Pair) (id : ℕ) → t.get s.to_id l ≡ some id → t.get r.0.to_id l ≡ some id
    pub grows : r.0.next_id ≤ suc s.next_id

  abbrev pub inserts : SymbolMap M N → List Pair → SymbolMap M N
  inserts s [] = s
  inserts s ((exchange, symbol) ∷ ps) = inserts (get_or_insert s exchange symbol).0 ps

  record Kept (s : SymbolMap M N) (n : ℕ) (s' : SymbolMap M N) : Type 0 where
    well : IsSymbolMap s'
    keeps : (l : Pair) (id : ℕ) → t.get s.to_id l ≡ some id → t.get s'.to_id l ≡ some id
    grows : s'.next_id ≤ s.next_id + n

  module _ (to_laws : IsMap M Pair ℕ) (from_laws : IsMap N ℕ Pair) where
    insert-IsSymbolMap :
        (s : SymbolMap M N) (key : Pair)
        → IsSymbolMap s
        → t.get s.to_id key ≡ none
        → IsSymbolMap (record {
          to_id = t.insert s.to_id key s.next_id;
          from_id = f.insert s.from_id s.next_id key;
          next_id = suc s.next_id;
        })
    insert-IsSymbolMap s key w missing = record {
      named = λ l id h. elim (to_laws.get-insert s.to_id key s.next_id l) [
        | inl (e, found) ↦ ground (arith, from_laws.get-insert s.from_id s.next_id key id)
        | inr (e, found) ↦
            ground
              (arith, w.named l id, w.below l id, from_laws.get-insert s.from_id s.next_id key id)
      ];
      numbered = λ l id h. elim (from_laws.get-insert s.from_id s.next_id key id) [
        | inl (e, found) ↦ ground (arith, to_laws.get-insert s.to_id key s.next_id l)
        | inr (e, found) ↦
            ground (arith, w.numbered l id, to_laws.get-insert s.to_id key s.next_id l)
      ];
      below = λ l id h. elim (to_laws.get-insert s.to_id key s.next_id l) [
        | inl (e, found) ↦ ground arith
        | inr (e, found) ↦ ground (arith, w.below l id)
      ];
      counted = ground (arith, w.counted, to_laws.len-insert s.to_id key s.next_id missing);
    }

    -- One call keeps the map well formed and every id that it held, and answers with the id of the
    -- pair, as long as fewer than 2^32 - 1 ids are given.
    pub get_or_insert-Answers :
        (s : SymbolMap M N) (exchange symbol : String)
        → suc s.next_id < 2 ^ 32
        → IsSymbolMap s
        → Answers s (exchange, symbol) (get_or_insert s exchange symbol)
    unfolding get_or_insert
    get_or_insert-Answers s exchange symbol small w =
        let key : Pair = (exchange, symbol) in
        elim (Option-cases (t.get s.to_id key)) [
          | inr (id, found) ↦ record {
            well = ground arith;
            answer = ground arith;
            keeps = λ l i h. ground arith;
            grows = ground arith;
          }
          | inl missing ↦
              let w' = insert-IsSymbolMap s key w missing in
              record {
                well = ground (arith, w');
                answer = ground (arith, to_laws.get-insert s.to_id key s.next_id key);
                keeps = λ l i h. ground (arith, to_laws.get-insert s.to_id key s.next_id l);
                grows = ground arith;
              }
        ]

    inserts-Kept :
        (s : SymbolMap M N) (ps : List Pair)
        → s.next_id + length ps < 2 ^ 32
        → IsSymbolMap s
        → Kept s (length ps) (inserts s ps)
    inserts-Kept s [] h w = record { well = w; keeps = λ l id e. e; grows = omega arith }
    inserts-Kept s ((exchange, symbol) ∷ ps) h w =
        let one = get_or_insert-Answers s exchange symbol (omega arith) w in
        let rest =
          inserts-Kept (get_or_insert s exchange symbol).0 ps (omega (arith, one.grows)) one.well in
        record {
          well = rest.well;
          keeps = λ l id e. rest.keeps l id (one.keeps l id e);
          grows = omega (arith, one.grows, rest.grows);
        }

    -- On a well-formed map whose ids stay below 2^32: two calls of `get_or_insert`, whatever pairs
    -- are inserted in between, answer the same id exactly when they ask for the same pair, and
    -- `get` gives for the first id its pair still.
    pub get_or_insert_round_trip :
        (s : SymbolMap M N) (a : Pair) (ps : List Pair) (b : Pair)
        → s.next_id + length ps + 2 < 2 ^ 32
        → IsSymbolMap s
        → let first = get_or_insert s a.0 a.1 in
          let second = get_or_insert (inserts first.0 ps) b.0 b.1 in
          ((first.1 ≡ second.1) ↔ (a ≡ b)) × (get second.0 first.1 ≡ some a)
    unfolding get
    get_or_insert_round_trip s a ps b h w =
        let one = get_or_insert-Answers s a.0 a.1 (omega arith) w in
        let first = get_or_insert s a.0 a.1 in
        let mid = inserts-Kept first.0 ps (omega (arith, one.grows)) one.well in
        let two =
          get_or_insert-Answers (inserts first.0 ps) b.0 b.1 (omega (arith, one.grows, mid.grows))
            mid.well in
        let second = get_or_insert (inserts first.0 ps) b.0 b.1 in
        let still = two.keeps a first.1 (mid.keeps a first.1 one.answer) in
        (
          (
            λ e.
                ground
                  (arith, two.well.named a first.1 still, two.well.named b second.1 two.answer),
            λ e. ground arith,
          ),
          two.well.named a first.1 still,
        )

    pub fresh-IsSymbolMap : IsSymbolMap fresh
    fresh-IsSymbolMap = record {
      named = λ key id h. ground (arith, to_laws.get-empty key);
      numbered = λ key id h. ground (arith, from_laws.get-empty id);
      below = λ key id h. ground (arith, to_laws.get-empty key);
      counted = ground (arith, to_laws.len-empty);
    }

    preallocate_symbols-inserts :
        (s : SymbolMap M N) (exchange : String) (symbols : List String)
        → s.next_id + length symbols < 2 ^ 32
        → IsSymbolMap s
        → IsSymbolMap (preallocate_symbols s exchange symbols)
          × ((preallocate_symbols s exchange symbols).next_id ≤ s.next_id + length symbols)
    unfolding preallocate_symbols
    preallocate_symbols-inserts s exchange [] h w = (w, omega arith)
    preallocate_symbols-inserts s exchange (symbol ∷ symbols) h w =
        let one = get_or_insert-Answers s exchange symbol (omega arith) w in
        let (rest, few) =
          preallocate_symbols-inserts (get_or_insert s exchange symbol).0 exchange symbols
            (omega (arith, one.grows)) one.well in
        (rest, omega (arith, few, one.grows))

    preallocate-IsSymbolMap :
        (s : SymbolMap M N) (exchanges symbols : List String)
        → s.next_id + length exchanges * length symbols < 2 ^ 32
        → IsSymbolMap s
        → IsSymbolMap (preallocate s exchanges symbols)
          × ((preallocate s exchanges symbols).next_id
              ≤ s.next_id + length exchanges * length symbols)
    unfolding preallocate
    preallocate-IsSymbolMap s [] symbols h w = (w, omega arith)
    preallocate-IsSymbolMap s (exchange ∷ exchanges) symbols h w =
        let m = length exchanges * length symbols in
        let split : length (exchange ∷ exchanges) * length symbols ≡ length symbols + m =
          omega (arith, suc-mul (length exchanges) (length symbols)) in
        let (one, few) = preallocate_symbols-inserts s exchange symbols (omega (arith, split)) w in
        let (rest, fewer) =
          preallocate-IsSymbolMap (preallocate_symbols s exchange symbols) exchanges symbols
            (omega (arith, split, few)) one in
        (rest, omega (arith, split, few, fewer))

    -- A new map is well formed and has given at most the ids 1 to 60.
    pub new-IsSymbolMap : let s : SymbolMap M N = new in IsSymbolMap s × (s.next_id ≤ 61)
    unfolding new
    new-IsSymbolMap =
        preallocate-IsSymbolMap fresh common_exchanges common_symbols (omega arith)
          fresh-IsSymbolMap
