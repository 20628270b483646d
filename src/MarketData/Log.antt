-- ===== src/MarketData/Log.antt =====
-- The store against the log of the updates that it was given, newest first.
use funding_spread_arbitrage.Prelude.{
  ℕ, suc, ◌≤◌, ◌<◌, ◌≡◌, List, [], ◌∷◌, none, some, arith, ltb, ◌==◌, if◌then◌else◌, length, get_or,
  set, max, length-set, length-replicate, get_or-replicate, get_or-set_self, get_or-set_ne,
}
use funding_spread_arbitrage.Double.{Double, lit}
use funding_spread_arbitrage.Types.Market.{MarketUpdate}
use funding_spread_arbitrage.MarketData.{
  MarketDataStore, max_symbols, new, update_from_market_update, get_bid, get_ask, get_timestamp,
  bid_at, ask_at, time_at, id_at,
}

-- Every array has an entry for each symbol, and `count` stays within them.
pub record IsStore {F : Type 0} (s : MarketDataStore F) : Type 0 where
  pub bids_length : length s.bids ≡ max_symbols
  pub asks_length : length s.asks ≡ max_symbols
  pub times_length : length s.timestamps ≡ max_symbols
  pub ids_length : length s.symbol_ids ≡ max_symbols
  pub in_range : s.count ≤ max_symbols

-- The specification: the newest update of a symbol, and one past the highest symbol of the log.
abbrev pub latest : {F B : Type 0} → (MarketUpdate F → B) → B → List (MarketUpdate F) → ℕ → B
latest f default [] i = default
latest f default (u ∷ us) i = if u.symbol_id == i then f u else latest f default us i

abbrev pub highest : {F : Type 0} → List (MarketUpdate F) → ℕ
highest [] = 0
highest (u ∷ us) =
    if ltb u.symbol_id max_symbols then max (suc u.symbol_id) (highest us) else highest us

-- A write is read back at its own index, and nowhere else.
get_or-set :
    {B : Type 0} (xs : List B) (i j : ℕ) (v d : B)
    → i < length xs
    → get_or (set xs i v) j d ≡ (if i == j then v else get_or xs j d)
get_or-set xs i j v d h = ground (arith, get_or-set_self xs i v d h, get_or-set_ne xs i j v d)

module _ {F : Type 0} ⦃d : Double F⦄ where
  pub new-IsStore : IsStore {F = F} new
  unfolding new
  new-IsStore = record {
    bids_length = length-replicate max_symbols (d.lit 0 0);
    asks_length = length-replicate max_symbols (d.lit 0 0);
    times_length = length-replicate {A = ℕ} max_symbols 0;
    ids_length = length-replicate {A = ℕ} max_symbols 0;
    in_range = omega arith;
  }

  pub update-IsStore :
      (s : MarketDataStore F) (u : MarketUpdate F)
      → IsStore s
      → IsStore (update_from_market_update s u)
  unfolding update_from_market_update
  update-IsStore s u w = ground (
    arith,
    length-set s.bids u.symbol_id u.bid,
    length-set s.asks u.symbol_id u.ask,
    length-set s.timestamps u.symbol_id u.timestamp_us,
    length-set s.symbol_ids u.symbol_id u.symbol_id,
  )

  pub replay : List (MarketUpdate F) → MarketDataStore F
  replay [] = new
  replay (u ∷ us) = update_from_market_update (replay us) u

  pub replay-IsStore : (us : List (MarketUpdate F)) → IsStore (replay us)
  unfolding replay
  replay-IsStore [] = new-IsStore
  replay-IsStore (u ∷ us) = update-IsStore (replay us) u (replay-IsStore us)

  -- What slot `i` holds after a log.
  pub record Holds (us : List (MarketUpdate F)) (i : ℕ) (s : MarketDataStore F) : Type 0 where
    pub bid : bid_at s i ≡ latest (λ u. u.bid) (lit 0 0) us i
    pub ask : ask_at s i ≡ latest (λ u. u.ask) (lit 0 0) us i
    pub time : time_at s i ≡ latest (λ u. u.timestamp_us) 0 us i
    pub id : id_at s i ≡ latest (λ u. u.symbol_id) 0 us i
    pub tracked : s.count ≡ highest us

  pub replay-Holds : (us : List (MarketUpdate F)) (i : ℕ) → i < max_symbols → Holds us i (replay us)
  unfolding replay new update_from_market_update
  replay-Holds [] i h =
      ground (
        arith,
        get_or-replicate max_symbols i (d.lit 0 0),
        get_or-replicate {A = ℕ} max_symbols i 0,
      )
  replay-Holds (u ∷ us) i h =
      let s = replay us in
      let k = u.symbol_id in
      let w : IsStore s = replay-IsStore us in
      ground (
        arith,
        replay-Holds us i h,
        get_or-set s.bids k i u.bid (lit 0 0),
        get_or-set s.asks k i u.ask (lit 0 0),
        get_or-set s.timestamps k i u.timestamp_us 0,
        get_or-set s.symbol_ids k i k 0,
      )

  -- After any log of updates, the getters answer for a symbol below 256 with its newest update. A
  -- symbol that had none answers zeros if a higher one below 256 had an update, and nothing
  -- otherwise.
  pub getters-latest :
      (us : List (MarketUpdate F)) (i : ℕ)
      → i < max_symbols
      → (get_bid (replay us) i
          ≡ (if ltb i (highest us) then some (latest (λ u. u.bid) (lit 0 0) us i) else none))
        × (get_ask (replay us) i
            ≡ (if ltb i (highest us) then some (latest (λ u. u.ask) (lit 0 0) us i) else none))
        × (get_timestamp (replay us) i
            ≡ (if ltb i (highest us) then some (latest (λ u. u.timestamp_us) 0 us i) else none))
  unfolding get_bid get_ask get_timestamp
  getters-latest us i h = ground (arith, replay-Holds us i h)

  -- A symbol with an id of 256 or more is never stored: every getter answers nothing for it.
  pub getters-out_of_range :
      (us : List (MarketUpdate F)) (i : ℕ)
      → max_symbols ≤ i
      → (get_bid (replay us) i ≡ none)
        × (get_ask (replay us) i ≡ none)
        × (get_timestamp (replay us) i ≡ none)
  unfolding get_bid get_ask get_timestamp
  getters-out_of_range us i h = ground (arith, replay-IsStore us)
