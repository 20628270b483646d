-- ===== src/Types/Market.antt =====
-- `MarketUpdate` and the order book of src/strategy/types.rs.
use funding_spread_arbitrage.Prelude.{ℕ, List}
use funding_spread_arbitrage.Double.{Double, lit, ◌⊕◌, ◌⊖◌, ◌⊗◌, ◌⊘◌}

pub record MarketUpdate (F : Type 0) : Type 0 where
  pub bid : F
  pub ask : F
  pub timestamp_us : ℕ
  pub symbol_id : ℕ

pub record PriceLevel (F : Type 0) : Type 0 where
  pub price : F
  pub quantity : F

pub record OrderBookDepth (F : Type 0) : Type 0 where
  pub bids : List (PriceLevel F)
  pub asks : List (PriceLevel F)
  pub timestamp : ℕ

module _ {F : Type 0} where
  unfoldable pub new : ℕ → F → F → ℕ → MarketUpdate F
  new symbol_id bid ask timestamp_us = record {
    bid = bid;
    ask = ask;
    timestamp_us = timestamp_us;
    symbol_id = symbol_id;
  }

module _ {F : Type 0} ⦃d : Double F⦄ where
  unfoldable pub spread_bps : MarketUpdate F → F
  spread_bps u = ((u.ask ⊖ u.bid) ⊘ u.bid) ⊗ lit 10000 0

  unfoldable pub mid_price : MarketUpdate F → F
  mid_price u = (u.bid ⊕ u.ask) ⊘ lit 2 0
