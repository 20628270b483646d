-- ===== src/Runner/OneTrade.antt =====
-- That `StrategyRunner` of src/strategy/runner.rs holds one open trade of a symbol.
use Prim.{Unit, tt}
use Prim.Native.String.{String, ◌++◌ as ◌<>◌}
use funding_spread_arbitrage.Prelude.{
  ℕ, ◌≤◌, ◌≡◌, sym, subst, inl, inr, arith, Bool, Bool-cases, Option, none, some, Option-cases,
  count_if,
}
use funding_spread_arbitrage.Double.{Double}
use funding_spread_arbitrage.Types.Trade.{ArbitrageOpportunity, PaperTrade}
use funding_spread_arbitrage.DashMap.{DashMap}
use funding_spread_arbitrage.SymbolMap.{Pair}
use funding_spread_arbitrage.Portfolio.{Redis}
use funding_spread_arbitrage.Hedge.Backend.{ExecutionBackend, Clock}
use funding_spread_arbitrage.Entry.Desk.{Desk}
use funding_spread_arbitrage.Runner.{
  StrategyRunner, after_entry, reserved, execute_opportunity, get_prices_from_store,
}
use funding_spread_arbitrage.Runner.Checks.{
  Assessed, occupies, any_occupies, placeholder_trade, projected, assess, is_real_trading,
}
use funding_spread_arbitrage.Runner.Trades.{TradeMap, IsTradeMap}
use funding_spread_arbitrage.Runner.Named.{Traded, enter_trade-Traded}
use funding_spread_arbitrage.Runner.Counts.{unoccupied, put_back, one_added}

module _ {B F T M N : Type 0} ⦃m : TradeMap T F⦄ where
  -- How many open trades of a symbol the runner holds.
  abbrev pub open_trades : String → StrategyRunner B F T M N → ℕ
  open_trades symbol r = count_if (occupies symbol) (m.entries r.active_trades)

  -- What is said of the runner afterwards, if the fuel suffices.
  abbrev pub HoldsOne : String → Option (StrategyRunner B F T M N) → Type 0
  HoldsOne symbol none = Unit
  HoldsOne symbol (some r) = open_trades symbol r ≤ 1

module _ {B F T M N : Type 0} ⦃x : ExecutionBackend B F⦄ ⦃c : Clock B⦄ ⦃d : Double F⦄
    ⦃m : TradeMap T F⦄ ⦃t : DashMap M Pair ℕ⦄ ⦃f : DashMap N ℕ Pair⦄ ⦃laws : IsTradeMap T F⦄ where
  after_entry-HoldsOne :
      (redis : Redis F) (symbol : String) (o : ArbitrageOpportunity F) (id : String)
      (a : Assessed F) (r : StrategyRunner B F T M N)
      (e : Option (Desk B F × Option (PaperTrade F)))
      → count_if (occupies o.symbol) (m.entries (m.remove r.active_trades id)) ≡ 0
      → count_if (occupies symbol) (m.entries (m.remove r.active_trades id)) ≤ 1
      → Traded o.symbol e
      → HoldsOne symbol (elim e [ none ↦ none | some q ↦ some (after_entry redis r id a q) ])
  unfolding after_entry
  after_entry-HoldsOne redis symbol o id a r none z k h = tt
  after_entry-HoldsOne redis symbol o id a r (some (s, none)) z k h = k
  after_entry-HoldsOne redis symbol o id a r (some (s, some trade)) z k h =
      one_added (m.remove r.active_trades id) (projected a trade) symbol
        (subst (λ n. count_if (occupies n) (m.entries (m.remove r.active_trades id)) ≡ 0) (sym h) z)
        k

  module _ (floor : F → F) (to_lowercase : String → String) (redis : Redis F) where
    reserved-HoldsOne :
        (symbol : String) (o : ArbitrageOpportunity F) (fuel : ℕ) (id : String)
        (r : StrategyRunner B F T M N)
        → count_if (occupies o.symbol) (m.entries (m.remove r.active_trades id)) ≡ 0
        → count_if (occupies symbol) (m.entries (m.remove r.active_trades id)) ≤ 1
        → HoldsOne symbol (reserved floor to_lowercase redis o fuel id r)
    unfolding reserved get_prices_from_store
    reserved-HoldsOne symbol o fuel id r z k =
        let (r₁, prices) = get_prices_from_store r o.symbol o.long_exchange o.short_exchange in
        elim (Option-cases (assess to_lowercase r₁.portfolio o prices)) [
          | inl p ↦ rw (reserved, p) k
          | inr (a, p) ↦
              rw (reserved, p)
                (after_entry-HoldsOne redis symbol o id a r₁ _ z k (
                  enter_trade-Traded floor to_lowercase (is_real_trading x.backend_name) o a fuel
                    r₁.desk))
        ]

    -- If the turns suffice, an opportunity leaves at most one open trade of a symbol in the runner's
    -- map, when there was at most one before.
    pub one_open_trade :
        (symbol : String) (o : ArbitrageOpportunity F) (fuel : ℕ) (r : StrategyRunner B F T M N)
        → open_trades symbol r ≤ 1
        → HoldsOne symbol (execute_opportunity floor to_lowercase redis o fuel r)
    unfolding execute_opportunity
    one_open_trade symbol o fuel r h =
        let (b, name) = c.new_uuid r.desk.exchanges in
        let id = "placeholder_" <> name in
        let r₁ : StrategyRunner B F T M N = record r {
          desk = record r.desk { exchanges = b };
          active_trades = m.insert r.active_trades id (placeholder_trade o id);
        } in
        let back = λ (p : String × PaperTrade F → Bool).
          put_back r.active_trades id (placeholder_trade o id) p in
        elim (Bool-cases (any_occupies o.symbol (m.entries r.active_trades))) [
          | inl p ↦ rw (execute_opportunity, p) h
          | inr p ↦
              rw (execute_opportunity, p)
                (reserved-HoldsOne symbol o fuel id r₁
                  (omega (
                    arith,
                    back (occupies o.symbol),
                    unoccupied o.symbol (m.entries r.active_trades) p,
                  ))
                  (omega (arith, back (occupies symbol), h)))
        ]
