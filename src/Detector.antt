-- ===== src/Detector.antt =====
-- `OpportunityDetector` of src/strategy/opportunity_detector.rs: from market updates to
-- opportunities. It owns the consumer of the market pipeline, its own store, and the producer of
-- the opportunity queue. Logging is left out, and the clock is an argument.
pub mod Check
pub mod Scan
pub mod Quality
pub mod Reach
use Prim.Native.String.{String}
use funding_spread_arbitrage.Prelude.{
  ℕ, Bool, true, false, not, ◌&&◌, List, [], ◌∷◌, Option, none, some, ltb, if◌then◌else◌,
}
use funding_spread_arbitrage.Double.{Double, lit, to_uint, abs, fmin, ◌⊕◌, ◌⊖◌, ◌⊗◌, ◌⊘◌, ◌≺◌, ◌≼◌}
use funding_spread_arbitrage.Types.Market.{MarketUpdate}
use funding_spread_arbitrage.Types.Trade.{HardConstraints, ConfluenceMetrics, ArbitrageOpportunity}
use funding_spread_arbitrage.Fees.{get_exchange_fee_by_name}
use funding_spread_arbitrage.Pipeline.Backlog.{inc}
use funding_spread_arbitrage.Pipeline.Market.{MarketPipeline}
use funding_spread_arbitrage.Pipeline.Opportunity.{OpportunityQueue}
use funding_spread_arbitrage.MarketData.{MarketDataStore, new as new_store}
use funding_spread_arbitrage.SymbolMap.{SymbolMap}

-- `P` and `Q` are the types of the two queues, `M` and `N` of the two maps.
pub record OpportunityDetector (P Q M N F : Type 0) : Type 0 where
  pub market_consumer : MarketPipeline P (MarketUpdate F)
  pub market_data_store : MarketDataStore F
  pub symbol_map : SymbolMap M N
  pub opportunity_producer : OpportunityQueue Q (ArbitrageOpportunity F)
  pub min_spread_bps : F
  pub min_funding_delta : F
  pub min_confidence : ℕ
  pub filter_count_spread : ℕ
  pub filter_count_funding : ℕ
  pub filter_count_confidence : ℕ
  pub filter_count_profit : ℕ

module _ {P Q M N F : Type 0} ⦃d : Double F⦄ where
  unfoldable pub new :
      MarketPipeline P (MarketUpdate F)
      → SymbolMap M N
      → OpportunityQueue Q (ArbitrageOpportunity F)
      → OpportunityDetector P Q M N F
  new market_consumer symbol_map opportunity_producer = record {
    market_consumer = market_consumer;
    market_data_store = new_store;
    symbol_map = symbol_map;
    opportunity_producer = opportunity_producer;
    min_spread_bps = lit 10 0;
    min_funding_delta = lit 1 4;
    min_confidence = 70;
    filter_count_spread = 0;
    filter_count_funding = 0;
    filter_count_confidence = 0;
    filter_count_profit = 0;
  }
