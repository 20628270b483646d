-- ===== src/Tests/Quotes.antt =====
-- The store of quotes, the symbol map and the table of exchanges on small inputs.
use Prim.Native.String.{String}
use text.Mathlib.Text.{◌==◌ as same_text}
use funding_spread_arbitrage.Prelude.{
  ℕ, ◌+◌, ◌≡◌, ◌↔◌, refl, true, List, [], ◌∷◌, none, some, arith, ltb, if◌then◌else◌,
}
use funding_spread_arbitrage.Double.{lit}
use funding_spread_arbitrage.Double.Fixed.{Fixed, fixed_double}
use funding_spread_arbitrage.Types.Market.{MarketUpdate}
use funding_spread_arbitrage.MarketData.{MarketDataStore, get_bid, get_ask, get_timestamp, is_stale}
use funding_spread_arbitrage.MarketData.Log.{replay, latest, highest, getters-latest}
use funding_spread_arbitrage.DashMap.Assoc.{key_ℕ, key_pair, assoc_map, Assoc-IsMap}
use funding_spread_arbitrage.SymbolMap.{SymbolMap, Pair, fresh, get, get_or_insert}
use funding_spread_arbitrage.SymbolMap.Laws.{inserts, fresh-IsSymbolMap, get_or_insert_round_trip}

abbrev quote : ℕ → ℕ → MarketUpdate Fixed
quote id bid = record {
  bid = lit bid 0;
  ask = lit (bid + 1) 0;
  timestamp_us = 1_000;
  symbol_id = id;
}

abbrev log : List (MarketUpdate Fixed)
log = quote 3 11 ∷ quote 300 9 ∷ quote 1 20 ∷ quote 3 10 ∷ []

getters-latest_example :
    (get_bid (replay log) 3
      ≡ (if ltb 3 (highest log) then some (latest (λ u. u.bid) (lit 0 0) log 3) else none))
    × (get_ask (replay log) 3
        ≡ (if ltb 3 (highest log) then some (latest (λ u. u.ask) (lit 0 0) log 3) else none))
    × (get_timestamp (replay log) 3
        ≡ (if ltb 3 (highest log) then some (latest (λ u. u.timestamp_us) 0 log 3) else none))
getters-latest_example = getters-latest log 3 (omega arith)

-- A store with one symbol, whose quote is stamped 50.
abbrev stamped : MarketDataStore Fixed
stamped = record {
  bids = lit 1 0 ∷ [];
  asks = lit 1 0 ∷ [];
  timestamps = 50 ∷ [];
  symbol_ids = 0 ∷ [];
  count = 1;
}

-- At time 40 the quote lies in the future and counts as stale.
future-is_stale : is_stale stamped 0 40 1_000 ≡ true
unfolding is_stale
future-is_stale = refl

abbrev empty : SymbolMap (List (Pair × ℕ)) (List (ℕ × Pair))
empty = fresh

abbrev bitcoin : Pair
bitcoin = ("okx", "BTCUSDT")

abbrev others : List Pair
others = ("bybit", "BTCUSDT") ∷ ("okx", "ETHUSDT") ∷ []

get_or_insert_round_trip_example :
    let first = get_or_insert empty "okx" "BTCUSDT" in
    let second = get_or_insert (inserts first.0 others) "okx" "BTCUSDT" in
    ((first.1 ≡ second.1) ↔ (bitcoin ≡ bitcoin)) × (get second.0 first.1 ≡ some bitcoin)
get_or_insert_round_trip_example =
    get_or_insert_round_trip Assoc-IsMap Assoc-IsMap empty bitcoin others bitcoin (omega arith)
      (fresh-IsSymbolMap Assoc-IsMap Assoc-IsMap)

-- A stand-in for `to_lowercase`, right on one name in capitals and on names in lower case.
abbrev lower : String → String
lower name = if same_text name "OKX" then "okx" else name
