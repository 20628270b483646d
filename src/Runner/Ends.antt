-- ===== src/Runner/Ends.antt =====
-- That `execute_opportunity` of src/strategy/runner.rs ends.
use Prim.Native.String.{String}
use funding_spread_arbitrage.Prelude.{
  ℕ, suc, ◌≤◌, ◌≡◌, refl, subst, ap, inl, inr, Bool, true, false, Bool-cases, Option, some,
  Option-cases, Result, ok, err,
}
use funding_spread_arbitrage.Double.{Double}
use funding_spread_arbitrage.Types.Trade.{ArbitrageOpportunity, PaperTrade}
use funding_spread_arbitrage.DashMap.{DashMap}
use funding_spread_arbitrage.SymbolMap.{Pair}
use funding_spread_arbitrage.Portfolio.{Redis}
use funding_spread_arbitrage.Hedge.Backend.{ExecutionBackend, Clock}
use funding_spread_arbitrage.Entry.Paper.{EntryError as PaperError, execute_atomic_entry}
use funding_spread_arbitrage.Entry.Desk.{Desk, EntryError}
use funding_spread_arbitrage.Runner.{
  StrategyRunner, real_result, paper_result, enter_trade, reserved, execute_opportunity,
  get_prices_from_store,
}
use funding_spread_arbitrage.Runner.Checks.{Assessed, any_occupies, assess, is_real_trading}
use funding_spread_arbitrage.Runner.Trades.{TradeMap, IsTradeMap}
use funding_spread_arbitrage.Entry.Timely.{IsTimed, Ended, entry_ends}
use funding_spread_arbitrage.Runner.OneTrade.{HoldsOne, open_trades, one_open_trade}

real_result-Ended :
    {B F : Type 0} {q : Option (Desk B F × Result (EntryError F) (PaperTrade F))}
    → Ended q
    → Ended (real_result q)
real_result-Ended ((s, ok trade), e) = (_, ap real_result e)
real_result-Ended ((s, err k), e) = (_, ap real_result e)

paper_result-Ended :
    {B F : Type 0} (s : Desk B F) (r : B × Result PaperError (PaperTrade F))
    → Ended (paper_result s r)
paper_result-Ended s (b, ok trade) = (_, refl)
paper_result-Ended s (b, err e) = (_, refl)

module _ {B F : Type 0} ⦃x : ExecutionBackend B F⦄ ⦃c : Clock B⦄ ⦃d : Double F⦄
    (timed : IsTimed B F) (floor : F → F) (to_lowercase : String → String) where
  enter_trade-Ended :
      (real : Bool) (o : ArbitrageOpportunity F) (a : Assessed F) (k : ℕ) (s : Desk B F)
      → 30 ≤ k
      → Ended (enter_trade floor to_lowercase real o a (suc k) s)
  unfolding enter_trade
  enter_trade-Ended true o a k s h =
      real_result-Ended (entry_ends timed floor o a.available_capital a.position_size k s h)
  enter_trade-Ended false o a k s h =
      paper_result-Ended s
        (execute_atomic_entry to_lowercase o a.available_capital a.position_size s.exchanges)

module _ {B F T M N : Type 0} ⦃x : ExecutionBackend B F⦄ ⦃c : Clock B⦄ ⦃d : Double F⦄
    ⦃m : TradeMap T F⦄ ⦃t : DashMap M Pair ℕ⦄ ⦃f : DashMap N ℕ Pair⦄ (timed : IsTimed B F)
    (floor : F → F) (to_lowercase : String → String) where
  module _ (redis : Redis F) where
    reserved-Ended :
        (o : ArbitrageOpportunity F) (k : ℕ) (id : String) (r : StrategyRunner B F T M N)
        → 30 ≤ k
        → Ended (reserved floor to_lowercase redis o (suc k) id r)
    unfolding reserved
    reserved-Ended o k id r h =
        let (r₁, prices) = get_prices_from_store r o.symbol o.long_exchange o.short_exchange in
        elim (Option-cases (assess to_lowercase r₁.portfolio o prices)) [
          | inl p ↦ rw (reserved, p) (_, refl)
          | inr (a, p) ↦
              let (e, q) =
                enter_trade-Ended timed floor to_lowercase (is_real_trading x.backend_name) o a k
                  r₁.desk h in
              rw (reserved, p, q) (_, refl)
        ]

    execute_opportunity-Ended :
        (o : ArbitrageOpportunity F) (k : ℕ) (r : StrategyRunner B F T M N)
        → 30 ≤ k
        → Ended (execute_opportunity floor to_lowercase redis o (suc k) r)
    unfolding execute_opportunity
    execute_opportunity-Ended o k r h =
        elim (Bool-cases (any_occupies o.symbol (m.entries r.active_trades))) [
          | inl p ↦ rw (execute_opportunity, p) (_, refl)
          | inr p ↦ rw (execute_opportunity, p) (reserved-Ended o k _ _ h)
        ]

    -- On exchanges whose clock does not go back, and a wait of n milliseconds takes at least those,
    -- execute_opportunity ends, for any opportunity, with real orders or simulated, when its entry
    -- has thirty-one turns or more; and the runner's map then holds at most one open trade of a
    -- symbol, active or exiting, when it held at most one before.
    pub one_trade_per_symbol :
        (laws : IsTradeMap T F) (symbol : String) (o : ArbitrageOpportunity F) (k : ℕ)
        (r : StrategyRunner B F T M N)
        → 30 ≤ k
        → open_trades symbol r ≤ 1
        → (r' : StrategyRunner B F T M N) × (execute_opportunity floor to_lowercase redis o
              (suc k)
              r
            ≡ some r')
          × (open_trades symbol r' ≤ 1)
    one_trade_per_symbol laws symbol o k r h one =
        let (r', e) = execute_opportunity-Ended o k r h in
        let held = one_open_trade ⦃laws = laws⦄ floor to_lowercase redis symbol o (suc k) r one in
        (r', e, subst (HoldsOne symbol) e held)
