-- ===== src/Detector/Check.antt =====
-- `check_opportunity` and what it computes from.
use Prim.Native.String.{String}
use funding_spread_arbitrage.Prelude.{
  ℕ, ◌+◌, ◌%◌, ◌^◌, ◌≡◌, Bool, true, false, ◌&&◌, some, ltb, not, if◌then◌else◌, arith,
}
use funding_spread_arbitrage.Double.{Double, lit, to_uint, abs, fmin, ◌⊕◌, ◌⊖◌, ◌⊗◌, ◌⊘◌, ◌≺◌, ◌≼◌}
use funding_spread_arbitrage.Types.Trade.{ConfluenceMetrics, ArbitrageOpportunity}
use funding_spread_arbitrage.ArrayQueue.{ArrayQueue}
use funding_spread_arbitrage.Fees.{get_exchange_fee_by_name}
use funding_spread_arbitrage.Pipeline.Backlog.{inc}
use funding_spread_arbitrage.Pipeline.Opportunity.{push}
use funding_spread_arbitrage.Detector.{OpportunityDetector}

module _ {F : Type 0} ⦃d : Double F⦄ where
  abbrev clamp : F → F → F → F
  clamp x low high = if x ≺ low then low else if high ≺ x then high else x

  unfoldable pub calculate_confidence : F → F → ℕ
  calculate_confidence spread_bps funding_delta =
      let score₁ = lit 0 0 ⊕ fmin (spread_bps ⊘ lit 50 0) (lit 1 0) ⊗ lit 50 0 in
      let score₂ = score₁ ⊕ fmin (abs funding_delta ⊘ lit 1 2) (lit 1 0) ⊗ lit 30 0 in
      let score₃ = score₂ ⊕ lit 20 0 in to_uint 8 (clamp score₃ (lit 0 0) (lit 100 0))

  -- The placeholders of the streaming pipeline.
  unfoldable pub get_funding_delta : String → String → String → F
  get_funding_delta _ _ _ = lit 2 4

  unfoldable pub get_depth : String → String → F
  get_depth _ _ = lit 15_000 0

  -- `build_metrics`, with the detector's threshold
  unfoldable pub build_metrics : F → F → F → F → ConfluenceMetrics F
  build_metrics min_funding_delta funding_delta depth_long depth_short = record {
    funding_delta = funding_delta;
    funding_delta_projected = funding_delta;
    obi_ratio = lit 0 0;
    oi_current = lit 0 0;
    oi_24h_avg = lit 0 0;
    vwap_deviation = lit 0 0;
    atr = lit 0 0;
    atr_trend = false;
    liquidation_cluster_distance = lit 0 0;
    hard_constraints = record {
      order_book_depth_sufficient = lit 10_000 0 ≼ depth_long && lit 10_000 0 ≼ depth_short;
      exchange_latency_ok = true;
      funding_delta_substantial = min_funding_delta ≼ abs funding_delta;
    };
  }

  abbrev pub spread_of : F → F → F
  spread_of long_ask short_bid = ((short_bid ⊖ long_ask) ⊘ long_ask) ⊗ lit 10_000 0

  -- the spread less the two taker fees, the slippage and the cost of funding
  abbrev pub profit_of : (String → String) → String → String → F → F
  profit_of to_lowercase long_exchange short_exchange spread =
      let long_fee_bps = get_exchange_fee_by_name to_lowercase long_exchange in
      let short_fee_bps = get_exchange_fee_by_name to_lowercase short_exchange in
      let total_fees_bps = long_fee_bps ⊕ short_fee_bps in
      spread ⊖ total_fees_bps ⊖ lit 3 0 ⊖ lit 10 0

  -- the opportunity that is pushed
  abbrev pub opportunity_of :
      (String → String) → F → String → String → String → F → F → ℕ → ArbitrageOpportunity F
  opportunity_of to_lowercase min_funding_delta symbol long_exchange short_exchange long_ask
        short_bid now =
      let spread = spread_of long_ask short_bid in
      let funding_delta = get_funding_delta symbol long_exchange short_exchange in
      let profit = profit_of to_lowercase long_exchange short_exchange spread in
      let depth_long = get_depth long_exchange symbol in
      let depth_short = get_depth short_exchange symbol in
      record {
        symbol = symbol;
        long_exchange = long_exchange;
        short_exchange = short_exchange;
        long_price = long_ask;
        short_price = short_bid;
        spread_bps = spread;
        funding_delta_8h = funding_delta;
        confidence_score = calculate_confidence spread funding_delta;
        projected_profit_usd = (profit ⊘ lit 10_000 0) ⊗ lit 1_000 0;
        projected_profit_after_slippage = profit;
        metrics = build_metrics min_funding_delta funding_delta depth_long depth_short;
        order_book_depth_long = depth_long;
        order_book_depth_short = depth_short;
        timestamp = some now;
      }

  module _ {P Q M N : Type 0} ⦃a : ArrayQueue Q (ArbitrageOpportunity F)⦄ where
    -- the filters of `check_opportunity` in their order, the last of them twice, and the push
    abbrev filter :
        OpportunityDetector P Q M N F
        → ArbitrageOpportunity F
        → Bool
        → Bool
        → Bool
        → Bool
        → OpportunityDetector P Q M N F
    filter s opportunity narrow unfunded unsure unprofitable =
        if narrow
        then record s { filter_count_spread = inc s.filter_count_spread }
        else if unfunded
        then record s { filter_count_funding = inc s.filter_count_funding }
        else if unsure
        then record s { filter_count_confidence = inc s.filter_count_confidence }
        else if unprofitable
        then record s { filter_count_profit = inc s.filter_count_profit }
        else if unprofitable
        then s
        else record s { opportunity_producer = push s.opportunity_producer opportunity }

    unfoldable pub check_opportunity :
        (String → String)
        → OpportunityDetector P Q M N F
        → String
        → String
        → String
        → F
        → F
        → ℕ
        → OpportunityDetector P Q M N F
    unfolding calculate_confidence get_funding_delta get_depth build_metrics
    check_opportunity to_lowercase s symbol long_exchange short_exchange long_ask short_bid now =
        let spread_bps = spread_of long_ask short_bid in
        let funding_delta : F = get_funding_delta symbol long_exchange short_exchange in
        let confidence = calculate_confidence spread_bps funding_delta in
        let profit = profit_of to_lowercase long_exchange short_exchange spread_bps in
        let opportunity =
          opportunity_of to_lowercase s.min_funding_delta symbol long_exchange short_exchange
            long_ask short_bid now in
        filter s opportunity (spread_bps ≼ s.min_spread_bps)
          (abs funding_delta ≺ s.min_funding_delta) (ltb confidence s.min_confidence)
          (profit ≼ lit 0 0)

  module _ {P Q M N : Type 0} ⦃a : ArrayQueue Q (ArbitrageOpportunity F)⦄ where
    abbrev pub filtered : OpportunityDetector P Q M N F → ℕ
    filtered s =
        (s.filter_count_spread + s.filter_count_funding + s.filter_count_confidence
          + s.filter_count_profit)
        % 2 ^ 64

    -- What a check must do with a candidate.
    pub record Checked (s : OpportunityDetector P Q M N F) (o : ArbitrageOpportunity F)
        (passes : Bool) (s' : OpportunityDetector P Q M N F) : Type 0 where
      pub pushed :
          s'.opportunity_producer
          ≡ (if passes then push s.opportunity_producer o else s.opportunity_producer)
      pub counted : filtered s' ≡ (filtered s + (if passes then 0 else 1)) % 2 ^ 64
      pub same_spread : s'.min_spread_bps ≡ s.min_spread_bps
      pub same_funding : s'.min_funding_delta ≡ s.min_funding_delta
      pub same_confidence : s'.min_confidence ≡ s.min_confidence
      pub same_store : s'.market_data_store ≡ s.market_data_store
      pub same_map : s'.symbol_map ≡ s.symbol_map
      pub same_consumer : s'.market_consumer ≡ s.market_consumer

    filter-Checked :
        (s : OpportunityDetector P Q M N F) (o : ArbitrageOpportunity F) (a b c e : Bool)
        → Checked s o (not a && not b && not c && not e) (filter s o a b c e)
    filter-Checked s o a b c e = ground arith

    -- A candidate is pushed exactly when its spread is not at or below the minimum, its funding
    -- delta and its confidence are not below theirs, and its profit after fees, slippage and
    -- funding is not at or below zero; otherwise one filter counter is raised. The rest of the
    -- detector stays as it is.
    pub check_opportunity-Checked :
        (to_lowercase : String → String) (s : OpportunityDetector P Q M N F)
        (symbol long_exchange short_exchange : String) (long_ask short_bid : F) (now : ℕ)
        → let spread = spread_of long_ask short_bid in
          let funding : F = get_funding_delta symbol long_exchange short_exchange in
          Checked s
            (opportunity_of to_lowercase s.min_funding_delta symbol long_exchange short_exchange
              long_ask short_bid now)
            (not (spread ≼ s.min_spread_bps)
              && not (abs funding ≺ s.min_funding_delta)
              && not (ltb (calculate_confidence spread funding) s.min_confidence)
              && not (profit_of to_lowercase long_exchange short_exchange spread ≼ lit 0 0))
            (check_opportunity to_lowercase s symbol long_exchange short_exchange long_ask short_bid
              now)
    unfolding check_opportunity
    check_opportunity-Checked to_lowercase s symbol long_exchange short_exchange long_ask short_bid
          now =
        filter-Checked s
          (opportunity_of to_lowercase s.min_funding_delta symbol long_exchange short_exchange
            long_ask short_bid now)
          (spread_of long_ask short_bid ≼ s.min_spread_bps)
          (abs (get_funding_delta symbol long_exchange short_exchange) ≺ s.min_funding_delta)
          (ltb
            (calculate_confidence (spread_of long_ask short_bid)
              (get_funding_delta symbol long_exchange short_exchange))
            s.min_confidence)
          (profit_of to_lowercase long_exchange short_exchange (spread_of long_ask short_bid)
            ≼ lit 0 0)
