-- ===== src/Detector/Quality.antt =====
-- Every opportunity that the detector queues meets its thresholds.
use Prim.Native.String.{String}
use funding_spread_arbitrage.Prelude.{
  ℕ, zero, suc, ◌<◌, ◌≡◌, refl, Bool, true, false, not, ◌&&◌, List, [], ◌∷◌, Option, none, some,
  ltb, length, arith, inl, inr, Bool-cases, All, all_nil, all_cons, All-append, All-keep_last,
}
use funding_spread_arbitrage.Double.{Double, lit, abs, ◌≺◌, ◌≼◌}
use funding_spread_arbitrage.ArrayQueue.{ArrayQueue, IsFifo}
use funding_spread_arbitrage.DashMap.{DashMap}
use funding_spread_arbitrage.Types.Market.{MarketUpdate}
use funding_spread_arbitrage.Types.Trade.{ArbitrageOpportunity}
use funding_spread_arbitrage.Pipeline.Market.{pop}
use funding_spread_arbitrage.Pipeline.Opportunity.Laws.{push-Queued}
use funding_spread_arbitrage.MarketData.{update_from_market_update}
use funding_spread_arbitrage.SymbolMap.{Pair, get}
use funding_spread_arbitrage.Detector.{OpportunityDetector}
use funding_spread_arbitrage.Detector.Check.{check_opportunity, check_opportunity-Checked, Checked}
use funding_spread_arbitrage.Detector.Scan.{
  with_id, check_both, check_pair, detect_named, process_popped, scanned_exchanges, get_exchanges,
  get_exchanges_for_symbol, get_prices, check_from, check_all, detect_opportunities_for_symbol,
  run_once,
}

module _ {F : Type 0} ⦃d : Double F⦄ where
  -- An opportunity that passes the filters with the given thresholds.
  pub record Meets (min_spread min_funding : F) (min_confidence : ℕ) (o : ArbitrageOpportunity F)
      : Type 0 where
    pub wide : (o.spread_bps ≼ min_spread) ≡ false
    pub funded : (abs o.funding_delta_8h ≺ min_funding) ≡ false
    pub sure : ltb o.confidence_score min_confidence ≡ false
    pub profitable : (o.projected_profit_after_slippage ≼ lit 0 0) ≡ false

all_pass :
    (a b c e : Bool)
    → not a && not b && not c && not e ≡ true
    → (a ≡ false) × ((b ≡ false) × ((c ≡ false) × (e ≡ false)))
all_pass a b c e h = ground arith

module _ {P Q M N F : Type 0} ⦃d : Double F⦄ ⦃a : ArrayQueue Q (ArbitrageOpportunity F)⦄ where
  abbrev pub held : OpportunityDetector P Q M N F → List (ArbitrageOpportunity F)
  held s = a.contents s.opportunity_producer.queue

  abbrev pub AllMeet : OpportunityDetector P Q M N F → Type 0
  AllMeet s = All (Meets s.min_spread_bps s.min_funding_delta s.min_confidence) (held s)

  -- What keeps the queue good: it stays as large, the thresholds stay, and so does `AllMeet`.
  record Steady (s s' : OpportunityDetector P Q M N F) : Type 0 where
    room :
        0 < a.capacity s.opportunity_producer.queue → 0 < a.capacity s'.opportunity_producer.queue
    good : 0 < a.capacity s.opportunity_producer.queue → AllMeet s → AllMeet s'

  Steady-refl : (s : OpportunityDetector P Q M N F) → Steady s s
  Steady-refl s = record { room = λ h. h; good = λ h g. g }

  Steady-trans :
      {s₁ s₂ s₃ : OpportunityDetector P Q M N F} → Steady s₁ s₂ → Steady s₂ s₃ → Steady s₁ s₃
  Steady-trans x y = record {
    room = λ h. y.room (x.room h);
    good = λ h g. y.good (x.room h) (x.good h g);
  }

  module _ (laws : IsFifo Q (ArbitrageOpportunity F)) where
    Checked-Steady :
        (s s' : OpportunityDetector P Q M N F) (o : ArbitrageOpportunity F) (passes : Bool)
        → (passes ≡ true → Meets s.min_spread_bps s.min_funding_delta s.min_confidence o)
        → Checked s o passes s'
        → Steady s s'
    Checked-Steady s s' o true meets c =
        let pushed = push-Queued laws s.opportunity_producer o in
        record {
          room = λ h. rw (c.pushed, (pushed h).bounded) h;
          good = λ h g.
              rw (c.same_spread, c.same_funding, c.same_confidence, c.pushed, (pushed h).held)
                (All-keep_last _ _ (All-append g (all_cons (meets refl) all_nil)));
        }
    Checked-Steady s s' o false meets c = record {
      room = λ h. rw c.pushed h;
      good = λ h g. rw (c.same_spread, c.same_funding, c.same_confidence, c.pushed) g;
    }

    check_opportunity-Steady :
        (to_lowercase : String → String) (s : OpportunityDetector P Q M N F)
        (symbol long short : String) (ask bid : F) (now : ℕ)
        → Steady s (check_opportunity to_lowercase s symbol long short ask bid now)
    check_opportunity-Steady to_lowercase s symbol long short ask bid now =
        Checked-Steady s _ _ _
          (λ h.
            let passed = all_pass _ _ _ _ h in
            record {
              wide = passed.0;
              funded = passed.1.0;
              sure = passed.1.1.0;
              profitable = passed.1.1.1;
            })
          (check_opportunity-Checked to_lowercase s symbol long short ask bid now)

module _ {P Q M N F : Type 0} ⦃d : Double F⦄ ⦃p : ArrayQueue P (MarketUpdate F)⦄
    ⦃a : ArrayQueue Q (ArbitrageOpportunity F)⦄ ⦃t : DashMap M Pair ℕ⦄ ⦃f : DashMap N ℕ Pair⦄ where
  -- the detection loop, a number of turns long
  pub turns :
      (String → String)
      → (String → String → ℕ)
      → ℕ
      → OpportunityDetector P Q M N F
      → OpportunityDetector P Q M N F
  turns to_lowercase clock zero s = s
  turns to_lowercase clock (suc n) s = turns to_lowercase clock n (run_once to_lowercase clock s)

  get_exchanges-Steady :
      (s : OpportunityDetector P Q M N F) (symbol : String) (exs : List String)
      → Steady s (get_exchanges s symbol exs).0
  unfolding get_exchanges
  get_exchanges-Steady s symbol [] = Steady-refl s
  get_exchanges-Steady s symbol (ex ∷ exs) =
      let s' = (with_id s ex symbol).0 in
      let rest = get_exchanges-Steady s' symbol exs in record { room = rest.room; good = rest.good }

  get_prices-Steady :
      (s : OpportunityDetector P Q M N F) (ex symbol : String) → Steady s (get_prices s ex symbol).0
  unfolding get_prices
  get_prices-Steady s ex symbol = record { room = λ h. h; good = λ h g. g }

  module _ (laws : IsFifo Q (ArbitrageOpportunity F)) (to_lowercase : String → String)
      (clock : String → String → ℕ) where
    check_both-Steady :
        (s : OpportunityDetector P Q M N F) (symbol ex₁ ex₂ : String) (m n : Option (F × F))
        → Steady s (check_both to_lowercase clock s symbol ex₁ ex₂ m n)
    check_both-Steady s symbol ex₁ ex₂ none n = Steady-refl s
    check_both-Steady s symbol ex₁ ex₂ (some m) none = Steady-refl s
    check_both-Steady s symbol ex₁ ex₂ (some m) (some n) =
        Steady-trans
          (check_opportunity-Steady laws to_lowercase s symbol ex₁ ex₂ m.1 n.0 (clock ex₁ ex₂))
          (check_opportunity-Steady laws to_lowercase _ symbol ex₂ ex₁ n.1 m.0 (clock ex₂ ex₁))

    check_pair-Steady :
        (s : OpportunityDetector P Q M N F) (symbol ex₁ ex₂ : String)
        → Steady s (check_pair to_lowercase clock s symbol ex₁ ex₂)
    check_pair-Steady s symbol ex₁ ex₂ =
        let first = get_prices s ex₁ symbol in
        let second = get_prices first.0 ex₂ symbol in
        Steady-trans (get_prices-Steady s ex₁ symbol) (
          Steady-trans (get_prices-Steady first.0 ex₂ symbol)
            (check_both-Steady second.0 symbol ex₁ ex₂ first.1 second.1))

    check_from-Steady :
        (s : OpportunityDetector P Q M N F) (symbol ex₁ : String) (exs : List String)
        → Steady s (check_from to_lowercase clock s symbol ex₁ exs)
    unfolding check_from
    check_from-Steady s symbol ex₁ [] = Steady-refl s
    check_from-Steady s symbol ex₁ (ex₂ ∷ exs) =
        Steady-trans (check_pair-Steady s symbol ex₁ ex₂)
          (check_from-Steady (check_pair to_lowercase clock s symbol ex₁ ex₂) symbol ex₁ exs)

    check_all-Steady :
        (s : OpportunityDetector P Q M N F) (symbol : String) (exs : List String)
        → Steady s (check_all to_lowercase clock s symbol exs)
    unfolding check_all
    check_all-Steady s symbol [] = Steady-refl s
    check_all-Steady s symbol (ex ∷ exs) =
        Steady-trans (check_from-Steady s symbol ex exs)
          (check_all-Steady (check_from to_lowercase clock s symbol ex exs) symbol exs)

    detect-Steady :
        (s : OpportunityDetector P Q M N F) (symbol : String)
        → Steady s (detect_opportunities_for_symbol to_lowercase clock s symbol)
    unfolding detect_opportunities_for_symbol get_exchanges_for_symbol
    detect-Steady s symbol =
        let r = get_exchanges s symbol scanned_exchanges in
        let found = get_exchanges-Steady s symbol scanned_exchanges in
        elim (Bool-cases (ltb (length r.1) 2)) [
          | inl e ↦ rw e found
          | inr e ↦ rw e (Steady-trans found (check_all-Steady r.0 symbol r.1))
        ]

    detect_named-Steady :
        (s : OpportunityDetector P Q M N F) (pair : Option Pair)
        → Steady s (detect_named to_lowercase clock s pair)
    detect_named-Steady s none = Steady-refl s
    detect_named-Steady s (some pair) = detect-Steady s pair.1

    process_popped-Steady :
        (s : OpportunityDetector P Q M N F) (update : Option (MarketUpdate F))
        → Steady s (process_popped to_lowercase clock s update)
    process_popped-Steady s none = Steady-refl s
    process_popped-Steady s (some update) =
        let rest =
          detect_named-Steady
            (record s { market_data_store = update_from_market_update s.market_data_store update })
            (get s.symbol_map update.symbol_id) in
        record { room = rest.room; good = rest.good }

    run_once-Steady : (s : OpportunityDetector P Q M N F) → Steady s (run_once to_lowercase clock s)
    unfolding run_once
    run_once-Steady s =
        let r = pop s.market_consumer in
        let rest = process_popped-Steady (record s { market_consumer = r.0 }) r.1 in
        record { room = rest.room; good = rest.good }

    turns-Steady :
        (n : ℕ) (s : OpportunityDetector P Q M N F) → Steady s (turns to_lowercase clock n s)
    unfolding turns
    turns-Steady zero s = Steady-refl s
    turns-Steady (suc n) s =
        Steady-trans (run_once-Steady s) (turns-Steady n (run_once to_lowercase clock s))

    -- If the opportunity queue has a capacity above 0 and what it holds meets the detector's
    -- thresholds, then however long the detection loop runs, and whatever updates and symbols it
    -- meets, every opportunity in the queue meets them: no spread at or below the minimum, no
    -- funding delta or confidence short of theirs, no profit at or below zero.
    pub queued_opportunities_meet :
        (n : ℕ) (s : OpportunityDetector P Q M N F)
        → 0 < a.capacity s.opportunity_producer.queue
        → AllMeet s
        → AllMeet (turns to_lowercase clock n s)
    queued_opportunities_meet n s = (turns-Steady n s).good
