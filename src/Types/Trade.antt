-- ===== src/Types/Trade.antt =====
-- Opportunities, trades and the portfolio's state of src/strategy/types.rs.
use Prim.Native.String.{String}
use funding_spread_arbitrage.Prelude.{ℕ, Bool, Option, List, [], ◌∷◌, ◌&&◌, if◌then◌else◌, min}
use funding_spread_arbitrage.Double.{Double, lit, to_uint, abs, fmin, ◌⊕◌, ◌⊖◌, ◌⊗◌, ◌⊘◌, ◌≺◌}
use funding_spread_arbitrage.Types.Order.{SimulatedOrder}

pub record HardConstraints : Type 0 where
  pub order_book_depth_sufficient : Bool
  pub exchange_latency_ok : Bool
  pub funding_delta_substantial : Bool

pub record ConfluenceMetrics (F : Type 0) : Type 0 where
  pub funding_delta : F
  pub funding_delta_projected : F
  pub obi_ratio : F
  pub oi_current : F
  pub oi_24h_avg : F
  pub vwap_deviation : F
  pub atr : F
  pub atr_trend : Bool
  pub liquidation_cluster_distance : F
  pub hard_constraints : HardConstraints

pub record ArbitrageOpportunity (F : Type 0) : Type 0 where
  pub symbol : String
  pub long_exchange : String
  pub short_exchange : String
  pub long_price : F
  pub short_price : F
  pub spread_bps : F
  pub funding_delta_8h : F
  pub confidence_score : ℕ
  pub projected_profit_usd : F
  pub projected_profit_after_slippage : F
  pub metrics : ConfluenceMetrics F
  pub order_book_depth_long : F
  pub order_book_depth_short : F
  pub timestamp : Option ℕ

pub data TradeStatus : Type 0 where
  pending active exiting closed : TradeStatus

pub record LegOutEvent (F : Type 0) : Type 0 where
  pub filled_leg : String
  pub filled_at : ℕ
  pub unfilled_leg : String
  pub hedge_executed : Bool
  pub hedge_price : F

pub record PaperTrade (F : Type 0) : Type 0 where
  pub id : String
  pub symbol : String
  pub long_exchange : String
  pub short_exchange : String
  pub entry_time : ℕ
  pub entry_long_price : F
  pub entry_short_price : F
  pub entry_spread_bps : F
  pub position_size_usd : F
  pub funding_delta_entry : F
  pub projected_profit_usd : F
  pub actual_profit_usd : F
  pub status : TradeStatus
  pub exit_reason : Option String
  pub exit_spread_bps : Option F
  pub exit_time : Option ℕ
  pub long_order : SimulatedOrder F
  pub short_order : SimulatedOrder F
  pub long_exit_order : Option (SimulatedOrder F)
  pub short_exit_order : Option (SimulatedOrder F)
  pub stop_loss_triggered : Bool
  pub stop_loss_long_price : F
  pub stop_loss_short_price : F
  pub leg_out_event : Option (LegOutEvent F)

-- The counters are `AtomicU64`.
pub record PortfolioState (F : Type 0) : Type 0 where
  pub starting_capital : F
  pub available_capital : F
  pub total_open_positions : F
  pub active_trades : List (PaperTrade F)
  pub closed_trades : List (PaperTrade F)
  pub cumulative_pnl : F
  pub win_count : ℕ
  pub loss_count : ℕ
  pub leg_out_count : ℕ
  pub leg_out_total_loss : F
  pub last_updated : ℕ

unfoldable pub passes_all : HardConstraints → Bool
passes_all h = h.order_book_depth_sufficient && h.exchange_latency_ok && h.funding_delta_substantial

module _ {F : Type 0} ⦃d : Double F⦄ where
  -- `iter().sum::<f64>()`, from an accumulator
  unfoldable pub sum_from : F → List F → F
  sum_from acc [] = acc
  sum_from acc (x ∷ xs) = sum_from (acc ⊕ x) xs

  -- `ConfluenceMetrics::calculate_confidence_score`
  unfoldable pub calculate_confidence_score : ConfluenceMetrics F → ℕ
  unfolding passes_all sum_from
  calculate_confidence_score m =
      let weights : List F = lit 9 0 ∷ lit 8 0 ∷ lit 7 0 ∷ lit 6 0 ∷ lit 5 0 ∷ lit 5 0 ∷ [] in
      let total_weight = sum_from (lit 0 0) weights in
      let funding_score = fmin (abs m.funding_delta ⊘ lit 1 2) (lit 1 0) ⊗ lit 100 0 in
      let score₁ = lit 0 0 ⊕ (funding_score ⊗ lit 9 0) ⊘ total_weight in
      let obi_score = fmin (abs m.obi_ratio) (lit 1 0) ⊗ lit 100 0 in
      let score₂ = score₁ ⊕ (obi_score ⊗ lit 8 0) ⊘ total_weight in
      let oi_score =
        if m.oi_24h_avg ≺ m.oi_current
        then (fmin (m.oi_current ⊘ m.oi_24h_avg ⊖ lit 1 0) (lit 5 1) ⊘ lit 5 1) ⊗ lit 100 0
        else lit 0 0 in
      let score₃ = score₂ ⊕ (oi_score ⊗ lit 7 0) ⊘ total_weight in
      let vwap_score = fmin (abs m.vwap_deviation) (lit 3 0) ⊘ lit 3 0 ⊗ lit 100 0 in
      let score₄ = score₃ ⊕ (vwap_score ⊗ lit 6 0) ⊘ total_weight in
      let atr_score = if m.atr_trend then lit 100 0 else lit 0 0 in
      let score₅ = score₄ ⊕ (atr_score ⊗ lit 5 0) ⊘ total_weight in
      let liq_score =
        (lit 1 0 ⊖ fmin (m.liquidation_cluster_distance ⊘ lit 100 0) (lit 1 0)) ⊗ lit 100 0 in
      let score₆ = score₅ ⊕ (liq_score ⊗ lit 5 0) ⊘ total_weight in
      if passes_all m.hard_constraints then min (to_uint 8 score₆) 100 else 0
