-- ===== src/Detector/Scan.antt =====
-- The scan of all pairs of exchanges for a symbol, and the body of the detection loop.
use Prim.Native.String.{String}
use funding_spread_arbitrage.Prelude.{
  ℕ, Bool, false, ◌||◌, List, [], ◌∷◌, Option, none, some, ltb, length, if◌then◌else◌,
}
use funding_spread_arbitrage.Double.{Double, lit, ◌≺◌, ◌≼◌}
use funding_spread_arbitrage.ArrayQueue.{ArrayQueue}
use funding_spread_arbitrage.DashMap.{DashMap}
use funding_spread_arbitrage.Types.Market.{MarketUpdate}
use funding_spread_arbitrage.Types.Trade.{ArbitrageOpportunity}
use funding_spread_arbitrage.Pipeline.Market.{pop}
use funding_spread_arbitrage.MarketData.{get_bid, get_ask, update_from_market_update}
use funding_spread_arbitrage.SymbolMap.{Pair, get_or_insert, get}
use funding_spread_arbitrage.Detector.{OpportunityDetector}
use funding_spread_arbitrage.Detector.Check.{check_opportunity}

abbrev pub scanned_exchanges : List String
scanned_exchanges =
    "binance" ∷ "bybit" ∷ "okx" ∷ "kucoin" ∷ "bitget" ∷ "gateio" ∷ "hyperliquid" ∷ "paradex" ∷ []

module _ {F : Type 0} ⦃d : Double F⦄ where
  abbrev pub is_valid : Option F → Bool
  is_valid none = false
  is_valid (some bid) = lit 0 0 ≺ bid

  abbrev pub valid_prices : Option F → Option F → Option (F × F)
  valid_prices none _ = none
  valid_prices (some bid) none = none
  valid_prices (some bid) (some ask) =
      if bid ≼ lit 0 0 || ask ≼ lit 0 0 then none else some (bid, ask)

module _ {P Q M N F : Type 0} ⦃d : Double F⦄ ⦃p : ArrayQueue P (MarketUpdate F)⦄
    ⦃a : ArrayQueue Q (ArbitrageOpportunity F)⦄ ⦃t : DashMap M Pair ℕ⦄ ⦃f : DashMap N ℕ Pair⦄ where
  -- `symbol_map.get_or_insert` of a detector: its map may gain a pair.
  abbrev pub with_id :
      OpportunityDetector P Q M N F → String → String → OpportunityDetector P Q M N F × ℕ
  with_id s exchange symbol =
      let r = get_or_insert s.symbol_map exchange symbol in (record s { symbol_map = r.0 }, r.1)

  -- the filter over a list of exchanges
  unfoldable pub get_exchanges :
      OpportunityDetector P Q M N F
      → String
      → List String
      → OpportunityDetector P Q M N F × List String
  get_exchanges s symbol [] = (s, [])
  get_exchanges s symbol (ex ∷ exs) =
      let (s', symbol_id) = with_id s ex symbol in
      let (s'', rest) = get_exchanges s' symbol exs in
      (s'', if is_valid (get_bid s'.market_data_store symbol_id) then ex ∷ rest else rest)

  unfoldable pub get_exchanges_for_symbol :
      OpportunityDetector P Q M N F → String → OpportunityDetector P Q M N F × List String
  unfolding get_exchanges
  get_exchanges_for_symbol s symbol = get_exchanges s symbol scanned_exchanges

  unfoldable pub get_prices :
      OpportunityDetector P Q M N F
      → String
      → String
      → OpportunityDetector P Q M N F × Option (F × F)
  get_prices s exchange symbol =
      let (s', symbol_id) = with_id s exchange symbol in
      (
        s',
        valid_prices (get_bid s'.market_data_store symbol_id)
            (get_ask s'.market_data_store symbol_id),
      )

  -- The two directions of a pair. `clock` is the time that a check of a pair reads.
  abbrev pub check_both :
      (String → String)
      → (String → String → ℕ)
      → OpportunityDetector P Q M N F
      → String
      → String
      → String
      → Option (F × F)
      → Option (F × F)
      → OpportunityDetector P Q M N F
  check_both to_lowercase clock s symbol ex₁ ex₂ none _ = s
  check_both to_lowercase clock s symbol ex₁ ex₂ (some _) none = s
  check_both to_lowercase clock s symbol ex₁ ex₂ (some (bid₁, ask₁)) (some (bid₂, ask₂)) =
      let s' = check_opportunity to_lowercase s symbol ex₁ ex₂ ask₁ bid₂ (clock ex₁ ex₂) in
      check_opportunity to_lowercase s' symbol ex₂ ex₁ ask₂ bid₁ (clock ex₂ ex₁)

  abbrev pub check_pair :
      (String → String)
      → (String → String → ℕ)
      → OpportunityDetector P Q M N F
      → String
      → String
      → String
      → OpportunityDetector P Q M N F
  check_pair to_lowercase clock s symbol ex₁ ex₂ =
      let first = get_prices s ex₁ symbol in
      let second = get_prices first.0 ex₂ symbol in
      check_both to_lowercase clock second.0 symbol ex₁ ex₂ first.1 second.1

  -- the loop over `j in (i + 1)..len`
  unfoldable pub check_from :
      (String → String)
      → (String → String → ℕ)
      → OpportunityDetector P Q M N F
      → String
      → String
      → List String
      → OpportunityDetector P Q M N F
  unfolding get_prices
  check_from to_lowercase clock s symbol ex₁ [] = s
  check_from to_lowercase clock s symbol ex₁ (ex₂ ∷ exs) =
      check_from to_lowercase clock (check_pair to_lowercase clock s symbol ex₁ ex₂) symbol ex₁ exs

  -- the loop over `i in 0..len`
  unfoldable pub check_all :
      (String → String)
      → (String → String → ℕ)
      → OpportunityDetector P Q M N F
      → String
      → List String
      → OpportunityDetector P Q M N F
  unfolding check_from
  check_all to_lowercase clock s symbol [] = s
  check_all to_lowercase clock s symbol (ex₁ ∷ exs) =
      check_all to_lowercase clock (check_from to_lowercase clock s symbol ex₁ exs) symbol exs

  unfoldable pub detect_opportunities_for_symbol :
      (String → String)
      → (String → String → ℕ)
      → OpportunityDetector P Q M N F
      → String
      → OpportunityDetector P Q M N F
  unfolding get_exchanges_for_symbol check_all
  detect_opportunities_for_symbol to_lowercase clock s symbol =
      let (s', exchanges) = get_exchanges_for_symbol s symbol in
      if ltb (length exchanges) 2 then s' else check_all to_lowercase clock s' symbol exchanges

  abbrev pub detect_named :
      (String → String)
      → (String → String → ℕ)
      → OpportunityDetector P Q M N F
      → Option Pair
      → OpportunityDetector P Q M N F
  detect_named to_lowercase clock s none = s
  detect_named to_lowercase clock s (some pair) =
      detect_opportunities_for_symbol to_lowercase clock s pair.1

  abbrev pub process_popped :
      (String → String)
      → (String → String → ℕ)
      → OpportunityDetector P Q M N F
      → Option (MarketUpdate F)
      → OpportunityDetector P Q M N F
  process_popped to_lowercase clock s none = s
  process_popped to_lowercase clock s (some update) =
      let s' = record s {
        market_data_store = update_from_market_update s.market_data_store update;
      } in
      detect_named to_lowercase clock s' (get s'.symbol_map update.symbol_id)

  -- one turn of the loop of `run`
  unfoldable pub run_once :
      (String → String)
      → (String → String → ℕ)
      → OpportunityDetector P Q M N F
      → OpportunityDetector P Q M N F
  unfolding detect_opportunities_for_symbol
  run_once to_lowercase clock s =
      let r = pop s.market_consumer in
      process_popped to_lowercase clock (record s { market_consumer = r.0 }) r.1
