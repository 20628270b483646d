-- ===== src/Detector/Reach.antt =====
-- What the detector cannot see: pairs whose id lies beyond the store.
use Prim.Native.String.{String}
use funding_spread_arbitrage.Prelude.{ℕ, ◌≤◌, ◌≡◌, refl, ◌⊎◌, inl, inr, none, arith, Option-cases}
use funding_spread_arbitrage.Double.{Double}
use funding_spread_arbitrage.ArrayQueue.{ArrayQueue}
use funding_spread_arbitrage.DashMap.{DashMap}
use funding_spread_arbitrage.Types.Market.{MarketUpdate}
use funding_spread_arbitrage.Types.Trade.{ArbitrageOpportunity}
use funding_spread_arbitrage.MarketData.{max_symbols, get_bid}
use funding_spread_arbitrage.MarketData.Log.{IsStore}
use funding_spread_arbitrage.SymbolMap.{Pair, get_or_insert}
use funding_spread_arbitrage.Detector.{OpportunityDetector}
use funding_spread_arbitrage.Detector.Scan.{get_prices, check_pair}

module _ {P Q M N F : Type 0} ⦃d : Double F⦄ ⦃p : ArrayQueue P (MarketUpdate F)⦄
    ⦃a : ArrayQueue Q (ArbitrageOpportunity F)⦄ ⦃t : DashMap M Pair ℕ⦄ ⦃f : DashMap N ℕ Pair⦄ where
  no_prices :
      (s : OpportunityDetector P Q M N F) (exchange symbol : String)
      → IsStore s.market_data_store
      → max_symbols ≤ (get_or_insert s.symbol_map exchange symbol).1
      → (get_prices s exchange symbol).1 ≡ none
  unfolding get_prices get_bid
  no_prices s exchange symbol w h = ground (arith, w.in_range)

  -- On a well-formed store, if the symbol map gives the pair of either exchange and the symbol an
  -- id of 256 or more, comparing the two exchanges changes nothing of the detector but the symbol
  -- map, which then has both pairs: no opportunity is pushed and no filter counts, whatever the
  -- quotes, and whichever of the two exchanges it is.
  pub unseen_beyond_store :
      (to_lowercase : String → String) (clock : String → String → ℕ)
      (s : OpportunityDetector P Q M N F) (symbol ex₁ ex₂ : String)
      → IsStore s.market_data_store
      → (max_symbols ≤ (get_or_insert s.symbol_map ex₁ symbol).1)
        ⊎ (max_symbols ≤ (get_or_insert (get_or_insert s.symbol_map ex₁ symbol).0 ex₂ symbol).1)
      → check_pair to_lowercase clock s symbol ex₁ ex₂ ≡ record s {
        symbol_map = (get_or_insert (get_or_insert s.symbol_map ex₁ symbol).0 ex₂ symbol).0;
      }
  unfolding get_prices
  unseen_beyond_store to_lowercase clock s symbol ex₁ ex₂ w (inl h) =
      rw (no_prices s ex₁ symbol w h) refl
  unseen_beyond_store to_lowercase clock s symbol ex₁ ex₂ w (inr h) =
      let s₁ = (get_prices s ex₁ symbol).0 in
      elim (Option-cases (get_prices s ex₁ symbol).1) [
        | inl p ↦ rw (p) refl
        | inr (q, p) ↦ rw (p, no_prices s₁ ex₂ symbol w h) refl
      ]
