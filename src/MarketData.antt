-- ===== src/MarketData.antt =====
-- `MarketDataStore` of src/strategy/market_data.rs: the latest quote of each symbol, in one array
-- per field. `prefetch_symbol` and the prefetches of `iter_spreads` change no state and are left
-- out; the arrays have 256 entries, so that an index below `count` is in range.
pub mod Log
pub mod Spreads
pub mod Stale
use funding_spread_arbitrage.Prelude.{
  ℕ, zero, suc, ◌+◌, ◌-◌, ◌%◌, ◌^◌, Bool, true, List, [], ◌∷◌, Option, none, some, ltb, ◌==◌, ◌&&◌,
  if◌then◌else◌, get_or, set, replicate,
}
use funding_spread_arbitrage.Double.{Double, lit, ◌⊕◌, ◌⊖◌, ◌⊗◌, ◌⊘◌, ◌≺◌}
use funding_spread_arbitrage.Types.Market.{MarketUpdate}

abbrev pub max_symbols : ℕ
max_symbols = 256

pub record MarketDataStore (F : Type 0) : Type 0 where
  pub bids : List F
  pub asks : List F
  pub timestamps : List ℕ
  pub symbol_ids : List ℕ
  pub count : ℕ

-- `fill` overwrites every entry of a vector.
abbrev pub fill : {B : Type 0} → List B → B → List B
fill [] x = []
fill (_ ∷ ys) x = x ∷ fill ys x

module _ {F : Type 0} ⦃d : Double F⦄ where
  abbrev pub bid_at : MarketDataStore F → ℕ → F
  bid_at s i = get_or s.bids i (lit 0 0)

  abbrev pub ask_at : MarketDataStore F → ℕ → F
  ask_at s i = get_or s.asks i (lit 0 0)

  abbrev pub time_at : MarketDataStore F → ℕ → ℕ
  time_at s i = get_or s.timestamps i 0

  abbrev pub id_at : MarketDataStore F → ℕ → ℕ
  id_at s i = get_or s.symbol_ids i 0

  unfoldable pub new : MarketDataStore F
  new = record {
    bids = replicate max_symbols (lit 0 0);
    asks = replicate max_symbols (lit 0 0);
    timestamps = replicate max_symbols 0;
    symbol_ids = replicate max_symbols 0;
    count = 0;
  }

  unfoldable pub update : MarketDataStore F → ℕ → F → F → ℕ → MarketDataStore F
  update s symbol_id bid ask timestamp_us =
      if ltb symbol_id max_symbols
      then record {
        bids = set s.bids symbol_id bid;
        asks = set s.asks symbol_id ask;
        timestamps = set s.timestamps symbol_id timestamp_us;
        symbol_ids = set s.symbol_ids symbol_id symbol_id;
        count = if ltb symbol_id s.count then s.count else suc symbol_id;
      }
      else s

  unfoldable pub update_from_market_update : MarketDataStore F → MarketUpdate F → MarketDataStore F
  unfolding update
  update_from_market_update s u = update s u.symbol_id u.bid u.ask u.timestamp_us

  abbrev spread_of : F → F → F
  spread_of bid ask = if lit 0 0 ≺ bid then ((ask ⊖ bid) ⊘ bid) ⊗ lit 10_000 0 else lit 0 0

  unfoldable pub get_spread_bps : MarketDataStore F → ℕ → F
  get_spread_bps s symbol_id =
      if ltb symbol_id s.count && (lit 0 0 ≺ bid_at s symbol_id)
      then ((ask_at s symbol_id ⊖ bid_at s symbol_id) ⊘ bid_at s symbol_id) ⊗ lit 10_000 0
      else lit 0 0

  unfoldable pub get_bid : MarketDataStore F → ℕ → Option F
  get_bid s symbol_id = if ltb symbol_id s.count then some (bid_at s symbol_id) else none

  unfoldable pub get_ask : MarketDataStore F → ℕ → Option F
  get_ask s symbol_id = if ltb symbol_id s.count then some (ask_at s symbol_id) else none

  unfoldable pub get_timestamp : MarketDataStore F → ℕ → Option ℕ
  get_timestamp s symbol_id = if ltb symbol_id s.count then some (time_at s symbol_id) else none

  unfoldable pub get_mid_price : MarketDataStore F → ℕ → Option F
  get_mid_price s symbol_id =
      if ltb symbol_id s.count
      then some ((bid_at s symbol_id ⊕ ask_at s symbol_id) ⊘ lit 2 0)
      else none

  -- The difference of two `u64` wraps around in a release build.
  unfoldable pub is_stale : MarketDataStore F → ℕ → ℕ → ℕ → Bool
  is_stale s symbol_id current_time_us threshold_us =
      if ltb symbol_id s.count
      then ltb threshold_us ((current_time_us + 2 ^ 64 - time_at s symbol_id) % 2 ^ 64)
      else true

  -- the items of `iter_spreads` from index `i` on, `n` of them
  spreads_from : MarketDataStore F → ℕ → ℕ → List (ℕ × F)
  spreads_from s i zero = []
  spreads_from s i (suc n) =
      (id_at s i, spread_of (bid_at s i) (ask_at s i)) ∷ spreads_from s (suc i) n

  unfoldable pub iter_spreads : MarketDataStore F → List (ℕ × F)
  unfolding spreads_from
  iter_spreads s = spreads_from s 0 s.count

  unfoldable pub len : MarketDataStore F → ℕ
  len s = s.count

  unfoldable pub is_empty : MarketDataStore F → Bool
  is_empty s = s.count == 0

  unfoldable pub clear : MarketDataStore F → MarketDataStore F
  clear s = record {
    bids = fill s.bids (lit 0 0);
    asks = fill s.asks (lit 0 0);
    timestamps = fill s.timestamps 0;
    symbol_ids = fill s.symbol_ids 0;
    count = 0;
  }
