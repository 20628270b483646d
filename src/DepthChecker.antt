-- ===== src/DepthChecker.antt =====
-- `DepthChecker` of src/strategy/depth_checker.rs. The map behind its mutex is a function from keys, and
-- a call holds the mutex only to read or to write it.
pub mod Reuse
use Prim.Native.String.{String, ◌++◌ as ◌<>◌}
use text.Mathlib.Text.{◌==◌ as same_text}
use funding_spread_arbitrage.Prelude.{
  ℕ, ◌-◌, Bool, not, ◌&&◌, List, [], ◌∷◌, Option, none, some, ltb, take, if◌then◌else◌, Result, ok,
  err,
}
use funding_spread_arbitrage.Double.{Double, lit, ◌⊗◌, ◌⊘◌, ◌≺◌, ◌≼◌}
use funding_spread_arbitrage.Types.Market.{PriceLevel, OrderBookDepth}
use funding_spread_arbitrage.Types.Trade.{sum_from}
use funding_spread_arbitrage.Hedge.Backend.{ExecutionBackend, Clock}

pub record DepthCheckResult (F : Type 0) : Type 0 where
  pub exchange : String
  pub symbol : String
  pub available_liquidity : F
  pub required_liquidity : F
  pub depth_ratio : F
  pub is_sufficient : Bool
  pub is_critical : Bool
  pub check_duration_ms : ℕ
  pub timestamp : ℕ

-- Order books, each with the time at which it was kept.
abbrev pub Cache : Type 0 → Type 0
Cache F = String → Option (OrderBookDepth F × ℕ)

module _ {F : Type 0} where
  unfoldable pub should_abort : DepthCheckResult F → Bool
  should_abort r = r.is_critical

  unfoldable pub should_warn : DepthCheckResult F → Bool
  should_warn r = not r.is_sufficient && not r.is_critical

  -- `HashMap::insert`
  abbrev pub insert : Cache F → String → OrderBookDepth F × ℕ → Cache F
  insert cache key entry other = if same_text other key then some entry else cache other

  abbrev quantities : List (PriceLevel F) → List F
  quantities [] = []
  quantities (l ∷ ls) = l.quantity ∷ quantities ls

-- `format!("{}:{}", exchange, symbol)`
abbrev pub cache_key : String → String → String
cache_key exchange symbol = exchange <> ":" <> symbol

abbrev pub cache_ttl_ms : ℕ
cache_ttl_ms = 100

module _ {F : Type 0} ⦃d : Double F⦄ where
  unfoldable pub calculate_depth_result :
      String → String → OrderBookDepth F → F → ℕ → DepthCheckResult F
  unfolding sum_from
  calculate_depth_result exchange symbol depth hedge_quantity duration_ms =
      let available_liquidity = sum_from (lit 0 0) (quantities (take 5 depth.bids)) in
      let required_liquidity = hedge_quantity ⊗ lit 15 1 in
      let depth_ratio =
        if lit 0 0 ≺ required_liquidity
        then available_liquidity ⊘ required_liquidity
        else lit 0 0 in
      record {
        exchange = exchange;
        symbol = symbol;
        available_liquidity = available_liquidity;
        required_liquidity = required_liquidity;
        depth_ratio = depth_ratio;
        is_sufficient = lit 1 0 ≼ depth_ratio;
        is_critical = depth_ratio ≺ lit 73 2;
        check_duration_ms = duration_ms;
        timestamp = depth.timestamp;
      }

module _ {F : Type 0} where
  -- The entry for a key, if it is younger than the cache keeps entries.
  abbrev pub fresh : Cache F → String → ℕ → Option (OrderBookDepth F)
  fresh cache key now = elim (cache key) [
    | none ↦ none
    | some (depth, timestamp) ↦ if ltb (now - timestamp) cache_ttl_ms then some depth else none
  ]

module _ {B F : Type 0} ⦃x : ExecutionBackend B F⦄ ⦃c : Clock B⦄ ⦃d : Double F⦄ where
  -- The cache, the exchanges and the answer after a call; the error is that of the exchange.
  unfoldable pub check_depth_for_hedge :
      String → String → F → Cache F → B → Cache F × B × Result String (DepthCheckResult F)
  unfolding calculate_depth_result
  check_depth_for_hedge exchange symbol hedge_quantity cache b =
      let start = c.instant b in
      let key = cache_key exchange symbol in
      let (b₁, queried) = x.get_order_book_depth exchange symbol 10 b in
      elim (fresh cache key start) [
        | some depth ↦
            (cache, b, ok (calculate_depth_result exchange symbol depth hedge_quantity 0))
        | none ↦ elim queried [
          | err e ↦ (cache, b₁, err e)
          | ok depth ↦ (
            insert cache key (depth, c.instant b₁),
            b₁,
            ok (calculate_depth_result exchange symbol depth hedge_quantity (c.instant b₁ - start)),
          )
        ]
      ]
