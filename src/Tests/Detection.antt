-- ===== src/Tests/Detection.antt =====
-- The detector on one symbol that two exchanges quote at different prices.
use Prim.Native.String.{String}
use funding_spread_arbitrage.Prelude.{inr, ◌≡◌, ℕ, not, ◌&&◌, List, [], ◌∷◌, arith, ltb, all_nil}
use funding_spread_arbitrage.Double.{lit, abs, ◌≺◌, ◌≼◌}
use funding_spread_arbitrage.Double.Fixed.{Fixed, fixed_double}
use funding_spread_arbitrage.ArrayQueue.Slots.{Slots, slots_queue, Slots-IsFifo}
use funding_spread_arbitrage.DashMap.Assoc.{key_ℕ, key_pair, assoc_map}
use funding_spread_arbitrage.Types.Market.{MarketUpdate}
use funding_spread_arbitrage.Types.Trade.{ArbitrageOpportunity}
use funding_spread_arbitrage.SymbolMap.{SymbolMap, Pair, fresh, get_or_insert}
use funding_spread_arbitrage.Detector.{OpportunityDetector, new}
use funding_spread_arbitrage.Detector.Check.{
  check_opportunity, check_opportunity-Checked, Checked, opportunity_of, spread_of, profit_of,
  get_funding_delta, calculate_confidence,
}
use funding_spread_arbitrage.MarketData.Log.{new-IsStore}
use funding_spread_arbitrage.Detector.Scan.{check_pair}
use funding_spread_arbitrage.Detector.Reach.{unseen_beyond_store}
use funding_spread_arbitrage.Detector.Quality.{turns, AllMeet, queued_opportunities_meet}

abbrev Symbols : Type 0
Symbols = SymbolMap (List (Pair × ℕ)) (List (ℕ × Pair))

abbrev Detector : Type 0
Detector =
    OpportunityDetector (Slots (MarketUpdate Fixed)) (Slots (ArbitrageOpportunity Fixed))
      (List (Pair × ℕ)) (List (ℕ × Pair)) Fixed

abbrev symbols : Symbols
symbols = (get_or_insert (get_or_insert fresh "bybit" "BTCUSDT").0 "okx" "BTCUSDT").0

abbrev quote : ℕ → ℕ → MarketUpdate Fixed
quote id price = record { bid = lit price 0; ask = lit price 0; timestamp_us = 1; symbol_id = id }

abbrev detector : Detector
detector =
    new
      record {
        queue = record { items = quote 1 1_000 ∷ quote 2 1_010 ∷ []; free = 8 };
        push_count = 2;
        enqueue_count = 2;
        drop_count = 0;
        pop_count = 0;
      }
      symbols
      record {
        queue = record { items = []; free = 4 };
        push_count = 0;
        pop_count = 0;
        drop_count = 0;
      }

abbrev same : String → String
same name = name

abbrev clock : String → String → ℕ
clock _ _ = 5

queued_opportunities_meet_example : AllMeet (turns same clock 2 detector)
unfolding new
queued_opportunities_meet_example =
    queued_opportunities_meet Slots-IsFifo same clock 2 detector (omega arith) all_nil

check_opportunity-Checked_example :
    Checked detector
      (opportunity_of same detector.min_funding_delta "BTCUSDT" "bybit" "okx"
        (lit 1_000 0)
        (lit 1_010 0)
        5)
      (not (spread_of (lit 1_000 0) (lit 1_010 0) ≼ detector.min_spread_bps)
        && not (
            abs (get_funding_delta {F = Fixed} "BTCUSDT" "bybit" "okx")
            ≺ detector.min_funding_delta)
        && not (
            ltb
              (calculate_confidence {F = Fixed}
                (spread_of (lit 1_000 0) (lit 1_010 0))
                (get_funding_delta "BTCUSDT" "bybit" "okx"))
              detector.min_confidence)
        && not (
            profit_of {F = Fixed} same "bybit" "okx" (spread_of (lit 1_000 0) (lit 1_010 0))
            ≼ lit 0 0))
      (check_opportunity same detector "BTCUSDT" "bybit" "okx" (lit 1_000 0) (lit 1_010 0) 5)
check_opportunity-Checked_example =
    check_opportunity-Checked same detector "BTCUSDT" "bybit" "okx" (lit 1_000 0) (lit 1_010 0) 5

-- A map whose next id is 300.
abbrev late : Detector
late = record detector {
  symbol_map = record (get_or_insert fresh "bybit" "BTCUSDT").0 { next_id = 300 };
}

unseen_beyond_store_example : check_pair same clock late "BTCUSDT" "bybit" "okx" ≡ record late {
  symbol_map =
      (get_or_insert (get_or_insert late.symbol_map "bybit" "BTCUSDT").0 "okx" "BTCUSDT").0;
}
unfolding new get_or_insert
unseen_beyond_store_example =
    unseen_beyond_store same clock late "BTCUSDT" "bybit" "okx" new-IsStore (inr (omega arith))
